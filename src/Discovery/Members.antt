-- ===== src/Discovery/Members.antt =====
-- Which tags `NormalizeTags` returns.
use claw_net.Base.{
  ◌≡◌, ◌∙◌, refl, ap, arith, Bool, true, ◌&&◌, ◌||◌, not, List, [], ◌∷◌, ◌++◌, map, Bytes,
  same_bytes, same_bytes_eq, Bool-cases, inl, inr,
}
use claw_net.Discovery.{normalize_tag, is_empty, holds_tag, gather_tags, insert_tag, sort_tags}

pub holds_tag-add :
    (u t : Bytes) (ts : List Bytes)
    → holds_tag u (ts ++ t ∷ []) ≡ (holds_tag u ts || same_bytes t u)
holds_tag-add u t [] = ground arith
holds_tag-add u t (s ∷ ts) = ground (arith, holds_tag-add u t ts)

pub holds_tag-insert_tag :
    (u t : Bytes) (ts : List Bytes)
    → holds_tag u (insert_tag t ts) ≡ (same_bytes t u || holds_tag u ts)
holds_tag-insert_tag u t [] = refl
holds_tag-insert_tag u t (s ∷ ts) = ground (arith, holds_tag-insert_tag u t ts)

pub holds_tag-sort_tags :
    (u : Bytes) (ts : List Bytes) → holds_tag u (sort_tags ts) ≡ holds_tag u ts
holds_tag-sort_tags u [] = refl
holds_tag-sort_tags u (t ∷ ts) =
    holds_tag-insert_tag u t (sort_tags ts)
    ∙ ap (λ b. same_bytes t u || b) (holds_tag-sort_tags u ts)

-- A tag that equals one that passes a test passes it.
same_bytes-passes : (p : Bytes → Bool) (t u : Bytes) → same_bytes t u ≡ true → p t ≡ p u
same_bytes-passes p t u h = ap p (same_bytes_eq t u h)

pub holds_tag-gather_tags :
    (u : Bytes) (seen result raws : List Bytes)
    → ((v : Bytes) → holds_tag v seen ≡ holds_tag v result)
    → holds_tag u (gather_tags seen result raws)
      ≡ (holds_tag u result || (not (is_empty u) && holds_tag u (map normalize_tag raws)))
holds_tag-gather_tags u seen result [] inv = ground arith
holds_tag-gather_tags u seen result (raw ∷ raws) inv =
    let t = normalize_tag raw in
    let skip = holds_tag-gather_tags u seen result raws inv in
    let add =
      holds_tag-gather_tags u (t ∷ seen) (result ++ t ∷ []) raws
        (λ v. let i = inv v in let a = holds_tag-add v t result in ground arith) in
    let a = holds_tag-add u t result in
    let i = inv u in
    elim (Bool-cases (same_bytes t u)) [
      | inl same ↦
          let e = same_bytes-passes is_empty t u same in
          let s = same_bytes-passes (λ v. holds_tag v seen) t u same in ground arith
      | inr other ↦ ground arith
    ]
