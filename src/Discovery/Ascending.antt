-- ===== src/Discovery/Ascending.antt =====
-- The order of the tags that `NormalizeTags` returns.
use claw_net.Base.{
  ◌≡◌, ◌∙◌, refl, arith, true, false, ◌&&◌, not, List, [], ◌∷◌, ◌++◌, map, Bytes, same_bytes,
  bytes_lt, bytes_lt_total, Bool-cases, inl, inr,
}
use claw_net.Discovery.{
  normalize_tag, is_empty, holds_tag, gather_tags, insert_tag, sort_tags, normalize_tags,
}
use claw_net.Discovery.Members.{holds_tag-sort_tags, holds_tag-gather_tags, holds_tag-add}

-- Strictly ascending, and above `t`.
abbrev pub Above : Bytes → List Bytes → Type 0
Above t [] = Unit
Above t (s ∷ ts) = (bytes_lt t s ≡ true) × Above s ts

-- Strictly ascending, hence without duplicates.
abbrev pub Strict : List Bytes → Type 0
Strict [] = Unit
Strict (t ∷ ts) = Above t ts

-- No tag stands twice.
abbrev pub Single : List Bytes → Type 0
Single [] = Unit
Single (t ∷ ts) = (holds_tag t ts ≡ false) × Single ts

goes_before :
    (t s : Bytes) (ts : List Bytes)
    → holds_tag t (s ∷ ts) ≡ false
    → bytes_lt s t ≡ false
    → bytes_lt t s ≡ true
goes_before t s ts absent h =
    let differs : same_bytes s t ≡ false = ground arith in bytes_lt_total s t h differs

insert_tag-Above :
    (b t : Bytes) (ts : List Bytes)
    → bytes_lt b t ≡ true
    → Above b ts
    → holds_tag t ts ≡ false
    → Above b (insert_tag t ts)
insert_tag-Above b t [] below above absent = (below, tt)
insert_tag-Above b t (s ∷ ts) below above absent = elim (Bool-cases (bytes_lt s t)) [
  | inl e ↦
      let rest : holds_tag t ts ≡ false = ground arith in
      rw e (above.0, insert_tag-Above s t ts e above.1 rest)
  | inr e ↦ rw e (below, (goes_before t s ts absent e, above.1))
]

insert_tag-Strict :
    (t : Bytes) (ts : List Bytes) → Strict ts → holds_tag t ts ≡ false → Strict (insert_tag t ts)
insert_tag-Strict t [] strict absent = tt
insert_tag-Strict t (s ∷ ts) strict absent = elim (Bool-cases (bytes_lt s t)) [
  | inl e ↦
      let rest : holds_tag t ts ≡ false = ground arith in
      rw e (insert_tag-Above s t ts e strict rest)
  | inr e ↦ rw e (goes_before t s ts absent e, strict)
]

sort_tags-Strict : (ts : List Bytes) → Single ts → Strict (sort_tags ts)
sort_tags-Strict [] single = tt
sort_tags-Strict (t ∷ ts) single =
    insert_tag-Strict t (sort_tags ts) (sort_tags-Strict ts single.1)
      (holds_tag-sort_tags t ts ∙ single.0)

same_bytes_sym : (s t : Bytes) → same_bytes s t ≡ same_bytes t s
unfolding same_bytes
same_bytes_sym [] [] = refl
same_bytes_sym [] (d ∷ t) = refl
same_bytes_sym (c ∷ s) [] = refl
same_bytes_sym (c ∷ s) (d ∷ t) = ground (arith, same_bytes_sym s t)

add_tag-Single :
    (t : Bytes) (ts : List Bytes) → Single ts → holds_tag t ts ≡ false → Single (ts ++ t ∷ [])
add_tag-Single t [] single absent = (refl, tt)
add_tag-Single t (s ∷ ts) single absent =
    let a = holds_tag-add s t ts in
    let sym_same = same_bytes_sym s t in
    let differs : holds_tag s (ts ++ t ∷ []) ≡ false = ground (arith, single.0) in
    let rest : holds_tag t ts ≡ false = ground arith in (differs, add_tag-Single t ts single.1 rest)

gather_tags-Single :
    (seen result raws : List Bytes)
    → ((v : Bytes) → holds_tag v seen ≡ holds_tag v result)
    → Single result
    → Single (gather_tags seen result raws)
gather_tags-Single seen result [] inv single = single
gather_tags-Single seen result (raw ∷ raws) inv single =
    let t = normalize_tag raw in
    elim (Bool-cases (not (is_empty t) && not (holds_tag t seen))) [
      | inl e ↦
          let i = inv t in
          let absent : holds_tag t result ≡ false = ground arith in
          rw e (
            gather_tags-Single (t ∷ seen) (result ++ t ∷ []) raws
              (λ v. let j = inv v in let a = holds_tag-add v t result in ground arith)
              (add_tag-Single t result single absent))
      | inr e ↦ rw e (gather_tags-Single seen result raws inv single)
    ]

-- `NormalizeTags` returns each normal form of its tags but the empty one, and no other tag; they stand in strictly
-- ascending order, hence each of them once.
pub normalize_tags_lem :
    (tags : List Bytes)
    → Strict (normalize_tags tags)
      × ((t : Bytes)
          → holds_tag t (normalize_tags tags)
            ≡ (not (is_empty t) && holds_tag t (map normalize_tag tags)))
unfolding normalize_tags
normalize_tags_lem tags = (
  sort_tags-Strict (gather_tags [] [] tags) (gather_tags-Single [] [] tags (λ v. refl) tt),
  λ t.
      holds_tag-sort_tags t (gather_tags [] [] tags)
      ∙ holds_tag-gather_tags t [] [] tags (λ v. refl),
)
