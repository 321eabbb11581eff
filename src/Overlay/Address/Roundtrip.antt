-- ===== src/Overlay/Address/Roundtrip.antt =====
-- The key that an address gives back has that address.
use claw_net.Base.{
  ℕ, zero, suc, ◌+◌, ◌-◌, ◌*◌, ◌≤◌, ◌≡◌, ◌∙◌, refl, ap, arith, false, not, List, [], ◌∷◌, ◌++◌,
  length, map, take, All, ◌==ℕ◌, length-append, append_assoc, take_part, length-take,
}
use claw_net.Overlay.Address.{
  copies, invert, bits_of, bytes_of, scan, array_of, no_scan, key_bits, overlay_address,
  partial_key_for_addr,
}
use claw_net.Overlay.Address.Bits.{
  IsBit, IsByte, length-copies, length-bits_of, bits_of-bytes_of, after, scan_bytes, scan-Extends,
  scan_ones,
}

All-append : (P : ℕ → Type 0) (xs ys : List ℕ) → All P xs → All P ys → All P (xs ++ ys)
All-append P [] ys h k = k
All-append P (x ∷ xs) ys h k = (h.0, All-append P xs ys h.1 k)

All-copies : (P : ℕ → Type 0) (n x : ℕ) → P x → All P (copies n x)
All-copies P zero x h = tt
All-copies P (suc n) x h = (h, All-copies P n x h)

All-take : (P : ℕ → Type 0) (n : ℕ) (xs : List ℕ) → All P xs → All P (take n xs)
All-take P zero xs h = tt
All-take P (suc n) [] h = tt
All-take P (suc n) (x ∷ xs) h = (h.0, All-take P n xs h.1)

bits_of-AllBits : (bs : List ℕ) → All IsBit (bits_of bs)
bits_of-AllBits [] = tt
bits_of-AllBits (b ∷ bs) = (
  omega arith,
  (
    omega arith,
    (
      omega arith,
      (omega arith, (omega arith, (omega arith, (omega arith, (omega arith, bits_of-AllBits bs))))),
    ),
  ),
)

take_longer :
    (n : ℕ) (xs ys : List ℕ) → length xs ≤ n → take n (xs ++ ys) ≡ xs ++ take (n - length xs) ys
take_longer n [] ys h = let e : n ≡ n - 0 = omega arith in ap (λ k. take k ys) e
take_longer zero (x ∷ xs) ys h = absurd (omega arith)
take_longer (suc n) (x ∷ xs) ys h =
    let e : n - length xs ≡ suc n - suc (length xs) = omega arith in
    ap (λ zs. x ∷ zs) (take_longer n xs ys (omega arith) ∙ ap (λ k. xs ++ take k ys) e)

invert_twice : (bs : List ℕ) → All IsByte bs → map invert (map invert bs) ≡ bs
invert_twice [] h = refl
invert_twice (b ∷ bs) h =
    let e : 255 - (255 - b) ≡ b = omega (arith, h.0) in rw (e, invert_twice bs h.1) refl

length-map : (f : ℕ → ℕ) (bs : List ℕ) → length (map f bs) ≡ length bs
length-map f [] = refl
length-map f (b ∷ bs) = omega (arith, length-map f bs)

module _ (ones : ℕ) (tail : List ℕ) (few : ones ≤ 143) (size : length tail ≡ 14)
    (bytes : All IsByte tail) where
  abbrev marked : List ℕ
  marked = copies ones 1 ++ 0 ∷ bits_of tail

  abbrev zeros : List ℕ
  zeros = take (256 - length marked) (copies 256 0)

  length-marked : length marked ≡ ones + 113
  length-marked =
      length-append (copies ones 1) (0 ∷ bits_of tail)
      ∙ omega (arith, length-copies ones 1, length-bits_of tail)

  key_bits_are : (x : ℕ) → key_bits (x ∷ ones ∷ tail) ≡ marked ++ zeros
  unfolding key_bits
  key_bits_are x = take_longer 256 marked (copies 256 0) (omega (arith, length-marked))

  length-key_bits : length (marked ++ zeros) ≡ 8 * 32
  length-key_bits =
      length-append marked zeros
      ∙ omega (arith, length-marked, length-take (256 - length marked) (copies 256 0) (omega arith))

  key_bits-AllBits : All IsBit (marked ++ zeros)
  key_bits-AllBits =
      All-append IsBit marked zeros
        (All-append IsBit (copies ones 1) (0 ∷ bits_of tail) (All-copies IsBit ones 1 (omega arith))
          (omega arith, bits_of-AllBits tail))
        (All-take IsBit (256 - length marked) (copies 256 0) (All-copies IsBit 256 0 (omega arith)))

  scanned :
      (z : List ℕ)
      → (more : List ℕ) × ((scan (marked ++ z) no_scan).temp ≡ tail ++ more)
        × ((scan (marked ++ z) no_scan).ones ≡ ones)
  scanned z =
      let joined : marked ++ z ≡ copies ones 1 ++ 0 ∷ (bits_of tail ++ z) =
        append_assoc (copies ones 1) (0 ∷ bits_of tail) z in
      let from_zero : 0 + ones ≡ ones = omega arith in
      let whole : scan (marked ++ z) no_scan ≡ scan z (after ones tail) =
        ap (λ l. scan l no_scan) joined
        ∙ scan_ones ones 0 (bits_of tail ++ z) (omega arith)
        ∙ scan_bytes tail z (0 + ones) [] bytes
        ∙ ap (λ k. scan z (after k tail)) from_zero in
      let (more, temp_is, ones_is) = scan-Extends z ones 0 0 tail in
      (more, ap (λ s. s.temp) whole ∙ temp_is, ap (λ s. s.ones) whole ∙ ones_is)

  array_of_tail : (more : List ℕ) → array_of 14 (tail ++ more) ≡ tail
  array_of_tail more =
      ap (take 14) (append_assoc tail more (copies 14 0))
      ∙ take_part 14 tail (more ++ copies 14 0) size

  address_of :
      (key z : List ℕ)
      → length key ≡ 32
      → bits_of (map invert key) ≡ marked ++ z
      → overlay_address key ≡ 2 ∷ ones ∷ tail
  unfolding overlay_address
  address_of key z l e =
      let (more, temp_is, ones_is) = scanned z in
      let whole : not (length key ==ℕ 32) ≡ false = ap (λ n. not (n ==ℕ 32)) l in
      rw (whole, e, temp_is, ones_is) (ap (λ t. 2 ∷ ones ∷ t) (array_of_tail more))

  -- The key that is derived from an address of 16 bytes, whose second byte is at most 143 and whose other
  -- bytes from the third on are any bytes, has 2 followed by the last 15 bytes of that address as its
  -- overlay address.
  pub overlay_address-partial_key_for_addr :
      (x : ℕ) → overlay_address (partial_key_for_addr (x ∷ ones ∷ tail)) ≡ 2 ∷ ones ∷ tail
  unfolding partial_key_for_addr
  overlay_address-partial_key_for_addr x =
      let (same_bits, size', bytes') =
        bits_of-bytes_of 32 (marked ++ zeros) length-key_bits key_bits-AllBits in
      let key : List ℕ = map invert (bytes_of (marked ++ zeros)) in
      ap (λ l. overlay_address (map invert (bytes_of l))) (key_bits_are x)
      ∙ address_of key zeros (length-map invert (bytes_of (marked ++ zeros)) ∙ size')
          (ap bits_of (invert_twice (bytes_of (marked ++ zeros)) bytes') ∙ same_bits)
