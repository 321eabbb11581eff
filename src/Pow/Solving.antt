-- ===== src/Pow/Solving.antt =====
-- Solving a challenge, and what its solution proves.
use claw_net.Base.{
  ℕ, zero, suc, ◌+◌, ◌%◌, ◌^◌, ◌≤◌, ◌<◌, ◌≡◌, ◌∙◌, refl, ap, arith, true, false, some, List, ◌++◌,
  length, All, ltb, Bool-cases, inl, inr, ◌⊎◌, ◌-◌,
}
use claw_net.Pow.{put_uint64, found, verify, solve_from, solve}
use claw_net.Pow.Zeros.{IsByte, value, has_leading_zeros-value}

-- What is documented of SHA-256: its hashes are 32 bytes.
pub record IsSha256 (sha256 : List ℕ → List ℕ) : Type 0 where
  pub size : (m : List ℕ) → length (sha256 m) ≡ 32
  pub bytes : (m : List ℕ) → All IsByte (sha256 m)

module _ (sha256 : List ℕ → List ℕ) where
  -- For a difficulty of at most 256, a nonce is accepted just where the number that its hash spells is below 2 ^ (256 -
  -- difficulty): the check does not panic.
  pub verify-value :
      (s : IsSha256 sha256) (peer_id : List ℕ) (nonce difficulty m : ℕ)
      → m + difficulty ≡ 256
      → verify sha256 peer_id nonce difficulty
        ≡ some (ltb (value (sha256 (peer_id ++ put_uint64 nonce))) (2 ^ m))
  unfolding verify
  verify-value s peer_id nonce difficulty m h =
      let l = s.size (peer_id ++ put_uint64 nonce) in
      has_leading_zeros-value (sha256 (peer_id ++ put_uint64 nonce)) difficulty m
        (s.bytes (peer_id ++ put_uint64 nonce)) (omega arith)

  -- `n` is the first nonce from `start` on that is accepted.
  abbrev pub IsFirst : List ℕ → ℕ → ℕ → ℕ → Type 0
  IsFirst peer_id difficulty start n =
      (verify sha256 peer_id n difficulty ≡ some true)
      × (start ≤ n)
      × ((j : ℕ) → start ≤ j → j < n → verify sha256 peer_id j difficulty ≡ some false)

  abbrev Finds : List ℕ → ℕ → ℕ → ℕ → Type 0
  Finds peer_id difficulty k start =
      (n : ℕ) × (solve_from sha256 (suc k) peer_id difficulty start ≡ found n)
      × IsFirst peer_id difficulty start n
      × (n ≤ start + k)

  verify_decides :
      (s : IsSha256 sha256) (peer_id : List ℕ) (n difficulty : ℕ)
      → difficulty ≤ 256
      → (verify sha256 peer_id n difficulty ≡ some true)
        ⊎ (verify sha256 peer_id n difficulty ≡ some false)
  verify_decides s peer_id n difficulty h =
      let e = verify-value s peer_id n difficulty (256 - difficulty) (omega arith) in
      elim (Bool-cases (ltb (value (sha256 (peer_id ++ put_uint64 n))) (2 ^ (256 - difficulty)))) [
        | inl t ↦ inl (e ∙ ap some t)
        | inr f ↦ inr (e ∙ ap some f)
      ]

  here :
      (peer_id : List ℕ) (difficulty k start : ℕ)
      → verify sha256 peer_id start difficulty ≡ some true
      → Finds peer_id difficulty k start
  unfolding solve_from
  here peer_id difficulty k start w =
      (start, rw (solve_from, w) refl, (w, omega arith, λ j p q. absurd (omega arith)), omega arith)

  goes_on :
      (peer_id : List ℕ) (difficulty fuel start next : ℕ)
      → (start + 1) % 2 ^ 64 ≡ next
      → verify sha256 peer_id start difficulty ≡ some false
      → solve_from sha256 (suc fuel) peer_id difficulty start
        ≡ solve_from sha256 fuel peer_id difficulty next
  unfolding solve_from
  goes_on peer_id difficulty fuel start next wrap w = rw (solve_from, w, wrap) refl

  -- One round more, where this one fails.
  later :
      (peer_id : List ℕ) (difficulty k start : ℕ)
      → start + 1 < 2 ^ 64
      → verify sha256 peer_id start difficulty ≡ some false
      → Finds peer_id difficulty k (start + 1)
      → Finds peer_id difficulty (suc k) start
  later peer_id difficulty k start h w (n, found_n, first, bound) = (
    n,
    goes_on peer_id difficulty (suc k) start (start + 1) (omega arith) w ∙ found_n,
    (first.0, omega (arith, first.1), λ j p q. rejected j p q (Bool-cases (ltb start j))),
    omega arith,
  )
    where
      rejected :
          (j : ℕ)
          → start ≤ j
          → j < n
          → (ltb start j ≡ true) ⊎ (ltb start j ≡ false)
          → verify sha256 peer_id j difficulty ≡ some false
      rejected j p q (inl t) = first.2 j (ground (arith, t)) q
      rejected j p q (inr t) = let e : j ≡ start = ground (arith, t) in rw e w

  search-Finds :
      (s : IsSha256 sha256) (peer_id : List ℕ) (difficulty k start : ℕ)
      → difficulty ≤ 256
      → start + k < 2 ^ 64
      → verify sha256 peer_id (start + k) difficulty ≡ some true
      → Finds peer_id difficulty k start
  search-Finds s peer_id difficulty zero start d h v =
      let e : start + 0 ≡ start = omega arith in here peer_id difficulty zero start (rw e at v)
  search-Finds s peer_id difficulty (suc k) start d h v =
      elim (verify_decides s peer_id start difficulty d) [
        | inl w ↦ here peer_id difficulty (suc k) start w
        | inr w ↦
            let shift : start + suc k ≡ start + 1 + k = omega arith in
            later peer_id difficulty k start (omega arith) w
              (search-Finds s peer_id difficulty k (start + 1) d (omega arith) (rw shift at v))
      ]

  -- Where hashes are 32 bytes, the difficulty is at most 256 and some nonce below 2 ^ 64 is accepted, `Solve` returns after
  -- one round more than that nonce, with the least nonce that `Verify` accepts.
  pub solve_finds :
      (s : IsSha256 sha256) (peer_id : List ℕ) (difficulty k : ℕ)
      → difficulty ≤ 256
      → k < 2 ^ 64
      → verify sha256 peer_id k difficulty ≡ some true
      → (n : ℕ) × (solve sha256 (suc k) peer_id difficulty ≡ found n)
        × IsFirst peer_id difficulty 0 n
        × (n ≤ k)
  unfolding solve
  solve_finds s peer_id difficulty k d h v =
      let e : k ≡ 0 + k = omega arith in
      let r = search-Finds s peer_id difficulty k 0 d (omega arith) (rw e at v) in
      (r.0, r.1, r.2, omega (arith, r.3))
