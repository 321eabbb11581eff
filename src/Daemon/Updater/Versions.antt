-- ===== src/Daemon/Updater/Versions.antt =====
-- What the comparison of versions sees.
use claw_net.Base.{
  ℕ, ◌+◌, ◌≡◌, ◌∙◌, refl, ap, arith, true, false, List, [], ◌∷◌, ◌++◌, ◌==ℕ◌, ◌⊎◌, Bool-cases, inl,
  inr,
}
use claw_net.Base.Int.{ℤ, ltb_ℤ, ◌<ℤ◌, pos_part, neg_part}
use claw_net.Daemon.Updater.{
  Semver, Parser, new_parser, is_digit, parse_char, parse_chars, trim_v, parse_semver, is_later,
  is_newer,
}

-- A character that ends the numbers of a version.
abbrev pub IsSuffixStart : ℕ → Type 0
IsSuffixStart c = (is_digit c ≡ false) × ((c ==ℕ 46) ≡ false)

parse_chars-stopped : (cs : List ℕ) (s : Parser) → s.stopped ≡ true → parse_chars cs s ≡ s
parse_chars-stopped [] s e = refl
parse_chars-stopped (c ∷ cs) s e =
    let stays : parse_char c s ≡ s = rw (parse_char, e) refl in
    ap (parse_chars cs) stays ∙ parse_chars-stopped cs s e

suffix_ignored :
    (p a : List ℕ) (c : ℕ) (s : Parser)
    → IsSuffixStart c
    → (parse_chars (p ++ c ∷ a) s).parts ≡ (parse_chars p s).parts
suffix_ignored [] a c s (digit, dot) = elim (Bool-cases s.stopped) [
  | inl e ↦ ap (λ r. r.parts) (parse_chars-stopped (c ∷ a) s e)
  | inr e ↦
      let ends : parse_char c s ≡ record s { stopped = true } =
        rw (parse_char, e, digit, dot) refl in
      ap (λ r. (parse_chars a r).parts) ends
      ∙ ap (λ r. r.parts) (parse_chars-stopped a (record s { stopped = true }) refl)
]
suffix_ignored (x ∷ p) a c s h = suffix_ignored p a c (parse_char x s) h

parse_semver-suffix :
    (x : ℕ) (p a : List ℕ) (c : ℕ)
    → IsSuffixStart c
    → parse_semver (x ∷ p ++ c ∷ a) ≡ parse_semver (x ∷ p)
unfolding parse_semver
parse_semver-suffix x p a c h = elim (Bool-cases (x ==ℕ 118)) [
  | inl e ↦ rw (parse_semver, trim_v, e) (suffix_ignored p a c new_parser h)
  | inr e ↦ rw (parse_semver, trim_v, e) (suffix_ignored (x ∷ p) a c new_parser h)
]

is_later_asym : (l c : Semver) → is_later l c ≡ true → is_later c l ≡ false
is_later_asym l c h = ground arith

is_later_irrefl : (l : Semver) → is_later l l ≡ false
is_later_irrefl l = ground arith

abbrev Same : ℤ → ℤ → Type 0
Same a b = pos_part a + neg_part b ≡ pos_part b + neg_part a

-- The order of the three numbers, the first one that differs first.
abbrev Above : Semver → Semver → Type 0
Above l c =
    (c.major <ℤ l.major)
    ⊎ ((Same l.major c.major × (c.minor <ℤ l.minor))
        ⊎ (Same l.major c.major × Same l.minor c.minor × (c.patch <ℤ l.patch)))

is_later-Above : (l c : Semver) → is_later l c ≡ true → Above l c
is_later-Above l c h = elim (Bool-cases (ltb_ℤ c.major l.major)) [
  | inl e ↦ inl (ground arith)
  | inr e ↦ elim (Bool-cases (ltb_ℤ c.minor l.minor)) [
    | inl d ↦ inr (inl (ground arith))
    | inr d ↦ inr (inr (ground arith))
  ]
]

Above-is_later : (l c : Semver) → Above l c → is_later l c ≡ true
Above-is_later l c (inl h) = ground arith
Above-is_later l c (inr (inl h)) = ground arith
Above-is_later l c (inr (inr h)) = ground arith

Above-trans : (l m c : Semver) → Above l m → Above m c → Above l c
Above-trans l m c (inl h) (inl k) = inl (omega arith)
Above-trans l m c (inl h) (inr (inl k)) = inl (omega (arith, k.0))
Above-trans l m c (inl h) (inr (inr k)) = inl (omega (arith, k.0))
Above-trans l m c (inr (inl h)) (inl k) = inl (omega (arith, h.0))
Above-trans l m c (inr (inl h)) (inr (inl k)) =
    inr (inl (omega (arith, h.0, k.0), omega (arith, h.1, k.1)))
Above-trans l m c (inr (inl h)) (inr (inr k)) =
    inr (inl (omega (arith, h.0, k.0), omega (arith, h.1, k.1)))
Above-trans l m c (inr (inr h)) (inl k) = inl (omega (arith, h.0))
Above-trans l m c (inr (inr h)) (inr (inl k)) =
    inr (inl (omega (arith, h.0, k.0), omega (arith, h.1, k.1)))
Above-trans l m c (inr (inr h)) (inr (inr k)) =
    inr (inr (omega (arith, h.0, k.0), omega (arith, h.1, k.1), omega (arith, h.2, k.2)))

is_later_trans : (l m c : Semver) → is_later l m ≡ true → is_later m c ≡ true → is_later l c ≡ true
is_later_trans l m c h k =
    Above-is_later l c (Above-trans l m c (is_later-Above l m h) (is_later-Above m c k))

-- A version that is newer than a second one, which is newer than a third, is newer than the third, and the
-- second is not newer than it.
pub is_newer_order :
    (l m c : List ℕ)
    → is_newer l m ≡ true
    → is_newer m c ≡ true
    → (is_newer m l ≡ false) × (is_newer l c ≡ true)
unfolding is_newer
is_newer_order l m c h k = (
  is_later_asym (parse_semver l) (parse_semver m) h,
  is_later_trans (parse_semver l) (parse_semver m) (parse_semver c) h k,
)

-- From the first character on, behind the first one of a version, that is neither a digit nor a dot, what
-- stands in a version changes no comparison: neither of another version with it nor of it with another,
-- and two versions that differ only there are not newer than each other.
pub is_newer_ignores_suffix :
    (x : ℕ) (p a b v : List ℕ) (c d : ℕ)
    → IsSuffixStart c
    → IsSuffixStart d
    → (is_newer v (x ∷ p ++ c ∷ a) ≡ is_newer v (x ∷ p))
      × (is_newer (x ∷ p ++ c ∷ a) v ≡ is_newer (x ∷ p) v)
      × (is_newer (x ∷ p ++ c ∷ a) (x ∷ p ++ d ∷ b) ≡ false)
unfolding is_newer
is_newer_ignores_suffix x p a b v c d h k =
    let at_c : parse_semver (x ∷ p ++ c ∷ a) ≡ parse_semver (x ∷ p) =
      parse_semver-suffix x p a c h in
    let at_d : parse_semver (x ∷ p ++ d ∷ b) ≡ parse_semver (x ∷ p) =
      parse_semver-suffix x p b d k in
    (
      ap (is_later (parse_semver v)) at_c,
      ap (λ s. is_later s (parse_semver v)) at_c,
      ap (λ s. is_later s (parse_semver (x ∷ p ++ d ∷ b))) at_c
          ∙ ap (is_later (parse_semver (x ∷ p))) at_d
          ∙ is_later_irrefl (parse_semver (x ∷ p)),
    )
