-- ===== src/Pow/Zeros.antt =====
-- A hash has leading zero bits just where its number is small.
use Prim.Native.Nat.{bit_and}
use native.Mathlib.Nat.{pow-suc}
use claw_net.Base.{
  ℕ, zero, suc, ◌+◌, ◌-◌, ◌*◌, ◌/◌, ◌%◌, ◌^◌, ◌≤◌, ◌<◌, ◌≡◌, ◌∙◌, refl, sym, ap, arith, Bool, true,
  false, not, some, List, [], ◌∷◌, length, All, ltb, ◌==ℕ◌, Bool-cases, inl, inr, lt→ltb,
  if◌then◌else◌,
}
use claw_net.Pow.{last_byte_ok, zeros_from, has_leading_zeros}

abbrev pub IsByte : ℕ → Type 0
IsByte x = x < 256

-- The number whose bytes are given, the highest first.
unfoldable pub value : List ℕ → ℕ
value [] = 0
value (x ∷ xs) = x * 2 ^ (8 * length xs) + value xs

pow2-add : (a b : ℕ) → 2 ^ (a + b) ≡ 2 ^ a * 2 ^ b
pow2-add zero b = grind arith
pow2-add (suc a) b =
    let e : suc a + b ≡ suc (a + b) = omega arith in
    rw (e, pow-suc 2 (a + b), pow-suc 2 a, pow2-add a b) (grind arith)

pow2-pos : (n : ℕ) → 1 ≤ 2 ^ n
pow2-pos zero = omega arith
pow2-pos (suc n) = rw (pow-suc 2 n) (omega (arith, pow2-pos n))

value-bound : (xs : List ℕ) → All IsByte xs → value xs < 2 ^ (8 * length xs)
unfolding value
value-bound [] h = omega arith
value-bound (x ∷ xs) h =
    let e : 8 * length (x ∷ xs) ≡ 8 + 8 * length xs = omega arith in
    rw (e, pow2-add 8 (8 * length xs)) (grind (arith, value-bound xs h.1, h.0))

-- A test that a computation can run on all numbers under a bound.
abbrev passes : (ℕ → Bool) → ℕ → Bool
passes test zero = true
passes test (suc bound) = if test bound then passes test bound else false

passes_each : (test : ℕ → Bool) (bound x : ℕ) → x < bound → passes test bound ≡ true → test x ≡ true
passes_each test zero x h t = absurd (omega arith)
passes_each test (suc bound) x h t = elim (Bool-cases (test bound)) [
  | inl e ↦ elim (Bool-cases (ltb x bound)) [
    | inl l ↦ passes_each test bound x (ground (arith, l)) (rw e at t)
    | inr l ↦ let top : x ≡ bound = ground (arith, l) in rw top e
  ]
  | inr e ↦ absurd (ground (arith, rw e at t))
]

abbrev same : Bool → Bool → Bool
same true b = b
same false b = not b

abbrev mask_test : ℕ → ℕ → Bool
mask_test r x = same (bit_and x (255 * 2 ^ (8 - r) % 256) ==ℕ 0) (ltb x (2 ^ (8 - r)))

-- Every byte under every mask.
abbrev masks_right : ℕ → Bool
masks_right x = passes (λ r. mask_test (r + 1) x) 8

mask_table : passes masks_right 256 ≡ true
mask_table = refl

same-≡ : (a b : Bool) → same a b ≡ true → a ≡ b
same-≡ true b h = sym h
same-≡ false true h = absurd (ground arith)
same-≡ false false h = refl

mask_lem :
    (r x : ℕ)
    → r < 8
    → x < 256
    → (bit_and x (255 * 2 ^ (8 - (r + 1)) % 256) ==ℕ 0) ≡ ltb x (2 ^ (8 - (r + 1)))
mask_lem r x h k =
    same-≡ _ _
      (passes_each (λ r. mask_test (r + 1) x) 8 r h (passes_each masks_right 256 x k mask_table))

-- A number and its highest digit are below a multiple of the digits' weight together.
digit_test : (x p v q : ℕ) → v < p → ltb x q ≡ ltb (x * p + v) (q * p)
digit_test x p v q h = elim (Bool-cases (ltb x q)) [
  | inl e ↦
      let lt : x < q = ground (arith, e) in
      let below : x * p + v < q * p = grind arith in rw e (sym (lt→ltb (x * p + v) (q * p) below))
  | inr e ↦
      let ge : q ≤ x = ground (arith, e) in
      let above : q * p ≤ x * p + v = grind arith in rw e (ground (arith, above))
]

last_byte_ok-value :
    (hash : List ℕ) (r m : ℕ)
    → All IsByte hash
    → r < 8
    → m + r ≡ 8 * length hash
    → last_byte_ok hash r ≡ some (ltb (value hash) (2 ^ m))
unfolding last_byte_ok value
last_byte_ok-value hash zero m b h k =
    let e : m ≡ 8 * length hash = omega arith in
    let below : value hash < 2 ^ m = rw e (value-bound hash b) in
    rw (last_byte_ok, ap some (lt→ltb (value hash) (2 ^ m) below)) refl
last_byte_ok-value [] (suc r) m b h k = absurd (omega arith)
last_byte_ok-value (x ∷ xs) (suc r) m b h k =
    rw (last_byte_ok, lt→ltb 0 (suc r) (omega arith))
      (ap some (
        masked
        ∙ digit_test x (2 ^ (8 * length xs)) (value xs) (2 ^ (8 - suc r)) (value-bound xs b.1)
        ∙ ap (ltb (value (x ∷ xs))) (sym power)))
  where
    power : 2 ^ m ≡ 2 ^ (8 - suc r) * 2 ^ (8 * length xs)
    power =
        let e : m ≡ 8 - suc r + 8 * length xs = omega arith in
        rw e (pow2-add (8 - suc r) (8 * length xs))

    masked : (bit_and x (255 * 2 ^ (8 - suc r) % 256) ==ℕ 0) ≡ ltb x (2 ^ (8 - suc r))
    masked = let e : suc r ≡ r + 1 = omega arith in rw e (mask_lem r x (omega arith) b.0)

large : (x m : ℕ) (xs : List ℕ) → 1 ≤ x → m ≤ 8 * length xs → ltb (value (x ∷ xs)) (2 ^ m) ≡ false
unfolding value
large x m xs h k =
    let d : ℕ = 8 * length xs - m in
    let e : 8 * length xs ≡ m + d = omega arith in
    let p : 2 ^ (8 * length xs) ≡ 2 ^ m * 2 ^ d = ap (λ n. 2 ^ n) e ∙ pow2-add m d in
    let q = pow2-pos d in
    let above : 2 ^ m ≤ 2 ^ (8 * length xs) = grind arith in
    let more : 2 ^ m ≤ x * 2 ^ (8 * length xs) + value xs = grind arith in ground (arith, more)

zeros_from-value :
    (n r m : ℕ) (hash : List ℕ)
    → All IsByte hash
    → r < 8
    → m + (8 * n + r) ≡ 8 * length hash
    → zeros_from n hash r ≡ some (ltb (value hash) (2 ^ m))
unfolding zeros_from value
zeros_from-value zero r m hash b h k = last_byte_ok-value hash r m b h (omega arith)
zeros_from-value (suc n) r m [] b h k = absurd (omega arith)
zeros_from-value (suc n) r m (x ∷ xs) b h k = elim (Bool-cases (x ==ℕ 0)) [
  | inl e ↦
      let z : value (x ∷ xs) ≡ value xs = same_value (ground (arith, e)) in
      rw (zeros_from, e, z) (zeros_from-value n r m xs b.1 h (omega arith))
  | inr e ↦ rw (zeros_from, e) (ap some (sym (large x m xs (ground (arith, e)) (omega arith))))
]
  where
    same_value : x ≡ 0 → value (x ∷ xs) ≡ value xs
    same_value z = rw z (omega arith)

-- For a hash of bytes that has `bits` bits or more, the test finds `bits` leading zero bits just where the number that the
-- hash spells, with `m` further bits, is below 2 ^ m, and it does not panic.
pub has_leading_zeros-value :
    (hash : List ℕ) (bits m : ℕ)
    → All IsByte hash
    → m + bits ≡ 8 * length hash
    → has_leading_zeros hash bits ≡ some (ltb (value hash) (2 ^ m))
unfolding has_leading_zeros
has_leading_zeros-value hash bits m b h =
    zeros_from-value (bits / 8) (bits % 8) m hash b (omega arith) (omega arith)
