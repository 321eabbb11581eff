-- ===== src/Pow.antt =====
-- The proof of work that a new identity must show: clawnet-cli/internal/pow/pow.go. Bytes are numbers; SHA-256
-- is a parameter, from the bytes that are hashed to the bytes of the hash.
use Prim.Native.Nat.{bit_and}
use claw_net.Base.{
  ℕ, zero, suc, ◌+◌, ◌-◌, ◌*◌, ◌/◌, ◌%◌, ◌^◌, Bool, true, false, not, Option, none, some, List, [],
  ◌∷◌, ◌++◌, ltb, ◌==ℕ◌, if◌then◌else◌,
}
mod Zeros
mod Solving
mod Examples

abbrev pub default_difficulty : ℕ
default_difficulty = 28

-- The last byte that is looked at, under its mask. None is a panic: an index out of range.
unfoldable pub last_byte_ok : List ℕ → ℕ → Option Bool
last_byte_ok hash rem =
    if ltb 0 rem
    then elim hash [ [] ↦ none | x ∷ _ ↦ some (bit_and x (255 * 2 ^ (8 - rem) % 256) ==ℕ 0) ]
    else some true

-- The loop over the bytes that must be 0, of which there are `full_bytes`, and the rest.
unfoldable pub zeros_from : ℕ → List ℕ → ℕ → Option Bool
zeros_from zero hash rem = last_byte_ok hash rem
zeros_from (suc full_bytes) [] rem = none
zeros_from (suc full_bytes) (x ∷ hash) rem =
    if not (x ==ℕ 0) then some false else zeros_from full_bytes hash rem

unfoldable pub has_leading_zeros : List ℕ → ℕ → Option Bool
has_leading_zeros hash bits = zeros_from (bits / 8) hash (bits % 8)

-- binary.BigEndian.PutUint64
abbrev pub put_uint64 : ℕ → List ℕ
put_uint64 n =
    n / 2 ^ 56 % 256
    ∷ n / 2 ^ 48 % 256
    ∷ n / 2 ^ 40 % 256
    ∷ n / 2 ^ 32 % 256
    ∷ n / 2 ^ 24 % 256
    ∷ n / 2 ^ 16 % 256
    ∷ n / 2 ^ 8 % 256
    ∷ n % 256
    ∷ []

pub data Search : Type 0 where
  found : ℕ → Search
  crashed : Search
  running : Search

module _ (sha256 : List ℕ → List ℕ) where
  -- `peer_id` is the bytes of the text.
  unfoldable pub verify : List ℕ → ℕ → ℕ → Option Bool
  verify peer_id nonce difficulty =
      has_leading_zeros (sha256 (peer_id ++ put_uint64 nonce)) difficulty

  -- The loop of `Solve`: `running` where the fuel ends before the loop does. The nonce is a uint64.
  unfoldable pub solve_from : ℕ → List ℕ → ℕ → ℕ → Search
  solve_from zero peer_id difficulty nonce = running
  solve_from (suc fuel) peer_id difficulty nonce =
      let rest = solve_from fuel peer_id difficulty ((nonce + 1) % 2 ^ 64) in
      elim (verify peer_id nonce difficulty) [
        | none ↦ crashed
        | some b ↦ if b then found nonce else rest
      ]

  unfoldable pub solve : ℕ → List ℕ → ℕ → Search
  solve fuel peer_id difficulty = solve_from fuel peer_id difficulty 0
