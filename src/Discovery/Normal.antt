-- ===== src/Discovery/Normal.antt =====
-- A tag in its normal form stays as it is.
use claw_net.Base.{
  ℕ, ◌≡◌, ◌∙◌, refl, sym, ap, arith, subst, false, Option, none, some, List, [], ◌∷◌, map, Bytes,
  same_bytes, Bool-cases, Option-cases, inl, inr, ◌⊎◌, All,
}
use claw_net.Discovery.{
  lookup, tag_aliases, to_lower, is_space, trim_left, trim_right, dash, cleaned, canonical,
  normalize_tag,
}

Bytes-cases : (t : Bytes) → (t ≡ []) ⊎ ((c : ℕ) × (s : Bytes) × (t ≡ c ∷ s))
Bytes-cases [] = inl refl
Bytes-cases (c ∷ s) = inr (c, s, refl)

trim_left-to_lower : (t : Bytes) → trim_left (map to_lower t) ≡ map to_lower (trim_left t)
trim_left-to_lower [] = refl
trim_left-to_lower (c ∷ t) =
    let same : is_space (to_lower c) ≡ is_space c = ground arith in
    elim (Bool-cases (is_space c)) [
      | inl e ↦ rw (same, e) (trim_left-to_lower t)
      | inr e ↦ rw (same, e) refl
    ]

trim_right-to_lower : (t : Bytes) → trim_right (map to_lower t) ≡ map to_lower (trim_right t)
trim_right-to_lower [] = refl
trim_right-to_lower (c ∷ t) =
    let same : is_space (to_lower c) ≡ is_space c = ground arith in
    elim (Bytes-cases (trim_right t)) [
      | inl e ↦ elim (Bool-cases (is_space c)) [
        | inl sp ↦ rw (trim_right-to_lower t, e, same, sp) refl
        | inr sp ↦ rw (trim_right-to_lower t, e, same, sp) refl
      ]
      | inr (d, s, e) ↦ rw (trim_right-to_lower t, e) refl
    ]

to_lower-cleaned :
    (t : Bytes) → map to_lower (map dash (map to_lower t)) ≡ map dash (map to_lower t)
to_lower-cleaned [] = refl
to_lower-cleaned (c ∷ t) =
    let same : to_lower (dash (to_lower c)) ≡ dash (to_lower c) = ground arith in
    rw (same, to_lower-cleaned t) refl

dash_idem : (t : Bytes) → map dash (map dash t) ≡ map dash t
dash_idem [] = refl
dash_idem (c ∷ t) = let same : dash (dash c) ≡ dash c = ground arith in rw (same, dash_idem t) refl

trim_left-dash :
    (t : Bytes)
    → trim_left (map dash (trim_right (trim_left t))) ≡ map dash (trim_right (trim_left t))
trim_left-dash [] = refl
trim_left-dash (c ∷ t) = elim (Bool-cases (is_space c)) [
  | inl e ↦ rw e (trim_left-dash t)
  | inr e ↦
      let dashed : is_space (dash c) ≡ false = ground arith in
      elim (Bytes-cases (trim_right t)) [
        | inl q ↦ rw (e, q, e, dashed) refl
        | inr (d, s, q) ↦ rw (e, q, dashed) refl
      ]
]

trim_right-dash : (t : Bytes) → trim_right (map dash (trim_right t)) ≡ map dash (trim_right t)
trim_right-dash [] = refl
trim_right-dash (c ∷ t) = elim (Bytes-cases (trim_right t)) [
  | inl q ↦ elim (Bool-cases (is_space c)) [
    | inl e ↦ rw (q, e) refl
    | inr e ↦ let dashed : is_space (dash c) ≡ false = ground arith in rw (q, e, dashed) refl
  ]
  | inr (d, s, q) ↦
      let rest : trim_right (map dash (d ∷ s)) ≡ map dash (d ∷ s) = rw q at (trim_right-dash t) in
      rw (q, rest) refl
]

cleaned_idem : (raw : Bytes) → cleaned (cleaned raw) ≡ cleaned raw
unfolding cleaned
cleaned_idem raw =
    let w = trim_right (trim_left raw) in
    let lowered : trim_right (trim_left (map to_lower raw)) ≡ map to_lower w =
      ap trim_right (trim_left-to_lower raw) ∙ trim_right-to_lower (trim_left raw) in
    let x : Bytes = map dash (trim_right (trim_left (map to_lower raw))) in
    let low : map to_lower x ≡ x =
      ap (λ t. map to_lower (map dash t)) lowered
      ∙ to_lower-cleaned w
      ∙ ap (map dash) (sym lowered) in
    let left : trim_left x ≡ x = trim_left-dash (map to_lower raw) in
    let right : trim_right x ≡ x = trim_right-dash (trim_left (map to_lower raw)) in
    ap (λ t. map dash (trim_right (trim_left t))) low
    ∙ ap (λ t. map dash (trim_right t)) left
    ∙ ap (map dash) right
    ∙ dash_idem (trim_right (trim_left (map to_lower raw)))

-- The text that a table gives passes what all its texts pass.
lookup-All :
    (P : Bytes → Type 0) (k t : Bytes) (m : List (Bytes × Bytes))
    → All (λ e. P e.1) m
    → lookup k m ≡ some t
    → P t
lookup-All P k t [] all h = absurd cc
lookup-All P k t ((a, b) ∷ m) all h = elim (Bool-cases (same_bytes a k)) [
  | inl e ↦
      let found : some b ≡ some t = rw e at h in let same : b ≡ t = cc found in subst P same all.0
  | inr e ↦ let found : lookup k m ≡ some t = rw e at h in lookup-All P k t m all.1 found
]

abbrev IsNormal : Bytes → Type 0
IsNormal t = normalize_tag t ≡ t

tag_aliases-IsNormal : All (λ e. IsNormal e.1) tag_aliases
unfolding tag_aliases normalize_tag canonical cleaned same_bytes
tag_aliases-IsNormal = (
  refl,
  (
    refl,
    (
      refl,
      (
        refl,
        (
          refl,
          (
            refl,
            (
              refl,
              (
                refl,
                (
                  refl,
                  (
                    refl,
                    (
                      refl,
                      (
                        refl,
                        (
                          refl,
                          (
                            refl,
                            (refl, (refl, (refl, (refl, (refl, (refl, (refl, (refl, tt)))))))),
                          ),
                        ),
                      ),
                    ),
                  ),
                ),
              ),
            ),
          ),
        ),
      ),
    ),
  ),
)

normal_form :
    (raw : Bytes) (o : Option Bytes)
    → lookup (cleaned raw) tag_aliases ≡ o
    → normalize_tag raw ≡ elim o [ none ↦ cleaned raw | some n ↦ n ]
unfolding normalize_tag canonical
normal_form raw o e = ap (λ p. elim p [ none ↦ cleaned raw | some n ↦ n ]) e

-- The normal form of a tag is its own normal form: no alias stands for an alias of another tag, and what
-- `NormalizeTag` cleans stays clean.
pub normalize_tag_idem : (raw : Bytes) → normalize_tag (normalize_tag raw) ≡ normalize_tag raw
normalize_tag_idem raw = elim (Option-cases (lookup (cleaned raw) tag_aliases)) [
  | inl e ↦
      let own : normalize_tag raw ≡ cleaned raw = normal_form raw none e in
      ap normalize_tag own
      ∙ normal_form (cleaned raw) none (ap (λ t. lookup t tag_aliases) (cleaned_idem raw) ∙ e)
      ∙ cleaned_idem raw
      ∙ sym own
  | inr (t, e) ↦
      let named : normalize_tag raw ≡ t = normal_form raw (some t) e in
      subst IsNormal (sym named)
        (lookup-All IsNormal (cleaned raw) t tag_aliases tag_aliases-IsNormal e)
]
