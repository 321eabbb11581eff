-- ===== src/Pow/Examples.antt =====
-- Small challenges, with a hash that repeats the lowest byte of the nonce, halved once for each unit of
-- the peer's id.
use claw_net.Base.{
  ℕ, zero, suc, ◌-◌, ◌*◌, ◌%◌, ◌^◌, ◌≤◌, ◌<◌, ◌≡◌, refl, arith, true, some, List, [], ◌∷◌, All, ltb,
}
use claw_net.Pow.{
  has_leading_zeros, last_byte_ok, zeros_from, found, running, verify, solve_from, solve,
  default_difficulty,
}
use claw_net.Pow.Zeros.{IsByte, value, has_leading_zeros-value}
use claw_net.Pow.Solving.{IsSha256, IsFirst, solve_finds}

abbrev last : List ℕ → ℕ
last [] = 0
last (x ∷ []) = x
last (x ∷ y ∷ xs) = last (y ∷ xs)

abbrev copies : ℕ → ℕ → List ℕ
copies zero x = []
copies (suc n) x = x ∷ copies n x

abbrev hash : List ℕ → List ℕ
hash bs = copies 32 ((255 - last bs * 20) % 256)

copies_bytes : (n x : ℕ) → x < 256 → All IsByte (copies n x)
copies_bytes zero x h = tt
copies_bytes (suc n) x h = (h, copies_bytes n x h)

hash-IsSha256 : IsSha256 hash
hash-IsSha256 = record {
  size = λ m. refl;
  bytes = λ m. copies_bytes 32 ((255 - last m * 20) % 256) (omega arith);
}

-- 3 leading zero bits take 12 steps: 255 - 240 < 32.
solved : solve hash 20 (1 ∷ []) 3 ≡ found 12
unfolding solve solve_from verify has_leading_zeros zeros_from last_byte_ok
solved = refl

not_yet : solve hash 12 (1 ∷ []) 3 ≡ running
unfolding solve solve_from verify has_leading_zeros zeros_from last_byte_ok
not_yet = refl

zero_bytes : has_leading_zeros (0 ∷ 0 ∷ 0 ∷ 15 ∷ 9 ∷ []) default_difficulty ≡ some true
unfolding has_leading_zeros zeros_from last_byte_ok
zero_bytes = refl

has_leading_zeros-value_example :
    has_leading_zeros (0 ∷ 7 ∷ []) 13 ≡ some (ltb (value (0 ∷ 7 ∷ [])) (2 ^ 3))
has_leading_zeros-value_example =
    has_leading_zeros-value (0 ∷ 7 ∷ []) 13 3 (omega arith, (omega arith, tt)) refl

solve_finds_example :
    (n : ℕ) × (solve hash 13 (1 ∷ []) 3 ≡ found n) × IsFirst hash (1 ∷ []) 3 0 n × (n ≤ 12)
unfolding verify has_leading_zeros zeros_from last_byte_ok
solve_finds_example = solve_finds hash hash-IsSha256 (1 ∷ []) 3 12 (omega arith) (omega arith) refl
