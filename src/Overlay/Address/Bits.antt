-- ===== src/Overlay/Address/Bits.antt =====
-- Bits and bytes.
use claw_net.Base.{
  ℕ, zero, suc, ◌+◌, ◌*◌, ◌/◌, ◌%◌, ◌<◌, ◌≡◌, ◌∙◌, refl, sym, ap, arith, true, false, List, [], ◌∷◌,
  ◌++◌, length, All, ◌==ℕ◌, append_assoc, Bool-cases, inl, inr,
}
use claw_net.Overlay.Address.{copies, byte_bits, bits_of, bytes_of, Scan, scan, shifted}

abbrev pub IsBit : ℕ → Type 0
IsBit b = b < 2

abbrev pub IsByte : ℕ → Type 0
IsByte b = b < 256

pub length-copies : (n x : ℕ) → length (copies n x) ≡ n
length-copies zero x = refl
length-copies (suc n) x = omega (arith, length-copies n x)

pub length-bits_of : (bs : List ℕ) → length (bits_of bs) ≡ 8 * length bs
length-bits_of [] = omega arith
length-bits_of (b ∷ bs) = omega (arith, length-bits_of bs)

append_nil : (xs : List ℕ) → xs ++ [] ≡ xs
append_nil [] = refl
append_nil (x ∷ xs) = rw (append_nil xs) refl

byte_bits-byte :
    (a b c d e f g h : ℕ) (rest : List ℕ)
    → IsBit a
    → IsBit b
    → IsBit c
    → IsBit d
    → IsBit e
    → IsBit f
    → IsBit g
    → IsBit h
    → bits_of (bytes_of rest) ≡ rest
    → byte_bits
        (a * 128 + b * 64 + c * 32 + d * 16 + e * 8 + f * 4 + g * 2 + h)
        (bits_of (bytes_of rest))
      ≡ a ∷ b ∷ c ∷ d ∷ e ∷ f ∷ g ∷ h ∷ rest
byte_bits-byte a b c d e f g h rest ha hb hc hd he hf hg hh ih =
    let x : ℕ = a * 128 + b * 64 + c * 32 + d * 16 + e * 8 + f * 4 + g * 2 + h in
    let e7 : x / 128 % 2 ≡ a = omega arith in
    let e6 : x / 64 % 2 ≡ b = omega arith in
    let e5 : x / 32 % 2 ≡ c = omega arith in
    let e4 : x / 16 % 2 ≡ d = omega arith in
    let e3 : x / 8 % 2 ≡ e = omega arith in
    let e2 : x / 4 % 2 ≡ f = omega arith in
    let e1 : x / 2 % 2 ≡ g = omega arith in
    let e0 : x % 2 ≡ h = omega arith in rw (e7, e6, e5, e4, e3, e2, e1, e0, ih) refl

pub bits_of-bytes_of :
    (n : ℕ) (xs : List ℕ)
    → length xs ≡ 8 * n
    → All IsBit xs
    → (bits_of (bytes_of xs) ≡ xs) × (length (bytes_of xs) ≡ n) × All IsByte (bytes_of xs)
bits_of-bytes_of zero [] l h = (refl, refl, tt)
bits_of-bytes_of (suc n) (a ∷ b ∷ c ∷ d ∷ e ∷ f ∷ g ∷ h ∷ rest) l
      (ha, (hb, (hc, (hd, (he, (hf, (hg, (hh, hr)))))))) =
    let (ih, il, ib) = bits_of-bytes_of n rest (omega arith) hr in
    (
      byte_bits-byte a b c d e f g h rest ha hb hc hd he hf hg hh ih,
      omega (arith, il),
      (omega arith, ib),
    )
bits_of-bytes_of n xs l h = absurd (omega arith)

-- The loop after the zero, between two bytes.
abbrev pub after : ℕ → List ℕ → Scan
after ones temp = record { past_zero = true; ones = ones; bits = 0; n_bits = 0; temp = temp }

-- A byte of the address, read after the zero.
pub scan_byte :
    (b ones : ℕ) (temp rest : List ℕ)
    → IsByte b
    → scan
        (byte_bits b rest)
        (record { past_zero = true; ones = ones; bits = 0; n_bits = 0; temp = temp })
      ≡ scan rest
          (record { past_zero = true; ones = ones; bits = 0; n_bits = 0; temp = temp ++ b ∷ [] })
scan_byte b ones temp rest h =
    let e7 : shifted 0 (b / 128 % 2) ≡ b / 128 = omega arith in
    let e6 : shifted (b / 128) (b / 64 % 2) ≡ b / 64 = omega arith in
    let e5 : shifted (b / 64) (b / 32 % 2) ≡ b / 32 = omega arith in
    let e4 : shifted (b / 32) (b / 16 % 2) ≡ b / 16 = omega arith in
    let e3 : shifted (b / 16) (b / 8 % 2) ≡ b / 8 = omega arith in
    let e2 : shifted (b / 8) (b / 4 % 2) ≡ b / 4 = omega arith in
    let e1 : shifted (b / 4) (b / 2 % 2) ≡ b / 2 = omega arith in
    let e0 : shifted (b / 2) (b % 2) ≡ b = omega arith in
    ap (λ x. scan rest (after ones (temp ++ x ∷ []))) (rw (e7, e6, e5, e4, e3, e2, e1, e0) refl)

-- The bytes of a list, read after the zero.
pub scan_bytes :
    (bs rest : List ℕ) (ones : ℕ) (temp : List ℕ)
    → All IsByte bs
    → scan
        (bits_of bs ++ rest)
        (record { past_zero = true; ones = ones; bits = 0; n_bits = 0; temp = temp })
      ≡ scan rest
          (record { past_zero = true; ones = ones; bits = 0; n_bits = 0; temp = temp ++ bs })
scan_bytes [] rest ones temp h = rw (append_nil temp) refl
scan_bytes (b ∷ bs) rest ones temp h =
    scan_byte b ones temp (bits_of bs ++ rest) h.0
    ∙ scan_bytes bs rest ones (temp ++ b ∷ []) h.1
    ∙ rw (append_assoc temp (b ∷ []) bs) refl

abbrev within : ℕ → ℕ → ℕ → List ℕ → Scan
within ones bits n_bits temp = record {
  past_zero = true;
  ones = ones;
  bits = bits;
  n_bits = n_bits;
  temp = temp;
}

abbrev Extends : List ℕ → ℕ → ℕ → ℕ → List ℕ → Type 0
Extends bs ones bits n_bits temp =
    (more : List ℕ) × ((scan bs (within ones bits n_bits temp)).temp ≡ temp ++ more)
    × ((scan bs (within ones bits n_bits temp)).ones ≡ ones)

-- What is read after the zero only adds bytes.
pub scan-Extends :
    (bs : List ℕ) (ones bits n_bits : ℕ) (temp : List ℕ) → Extends bs ones bits n_bits temp
scan-Extends [] ones bits n_bits temp = ([], sym (append_nil temp), refl)
scan-Extends (bit ∷ bs) ones bits n_bits temp = elim (Bool-cases (n_bits + 1 ==ℕ 8)) [
  | inl e ↦
      let r = scan-Extends bs ones 0 0 (temp ++ shifted bits bit ∷ []) in
      rw (scan, e)
        (shifted bits bit ∷ r.0, r.1 ∙ append_assoc temp (shifted bits bit ∷ []) r.0, r.2)
  | inr e ↦ rw (scan, e) (scan-Extends bs ones (shifted bits bit) (n_bits + 1) temp)
]

abbrev before : ℕ → Scan
before k = record { past_zero = false; ones = k; bits = 0; n_bits = 0; temp = [] }

-- The ones before the first zero are counted.
pub scan_ones :
    (n k : ℕ) (rest : List ℕ)
    → k + n < 256
    → scan (copies n 1 ++ 0 ∷ rest) (before k) ≡ scan rest (after (k + n) [])
scan_ones zero k rest h = let e : k ≡ k + 0 = omega arith in ap (λ x. scan rest (after x [])) e
scan_ones (suc n) k rest h =
    let w : (k + 1) % 256 ≡ k + 1 = omega arith in
    let e : k + 1 + n ≡ k + suc n = omega arith in
    ap (λ x. scan (copies n 1 ++ 0 ∷ rest) (before x)) w
    ∙ scan_ones n (k + 1) rest (omega arith)
    ∙ ap (λ x. scan rest (after x [])) e
