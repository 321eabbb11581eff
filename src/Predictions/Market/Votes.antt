-- ===== src/Predictions/Market/Votes.antt =====
-- What COUNT(DISTINCT ...) counts: `CountResolutions` and `CountAppeals` of
-- clawnet-cli/internal/store/predictions.go.
use claw_net.Base.{
  String, true, false, List, [], ◌∷◌, ◌≡◌, refl, arith, inl, inr, Bool-cases, length, All,
  text_refl,
}
use claw_net.Predictions.Market.{occurs, count_distinct}

abbrev pub AllDiffer : List String → Type 0
AllDiffer [] = Unit
AllDiffer (a ∷ as_) = (occurs a as_ ≡ false) × AllDiffer as_

-- As many different values as are counted, all of them in the list.
abbrev pub Voters : List String → Type 0
Voters xs =
    (ys : List String) × (length ys ≡ count_distinct xs)
    × AllDiffer ys
    × All (λ y. occurs y xs ≡ true) ys
    × ((a : String) → occurs a xs ≡ false → occurs a ys ≡ false)

still :
    (x : String) (xs ys : List String)
    → All (λ y. occurs y xs ≡ true) ys
    → All (λ y. occurs y (x ∷ xs) ≡ true) ys
still x xs [] h = tt
still x xs (y ∷ ys) h = (ground (arith, h.0), still x xs ys h.1)

pub count_distinct-Voters : (xs : List String) → Voters xs
count_distinct-Voters [] = ([], refl, tt, tt, λ a h. refl)
count_distinct-Voters (x ∷ xs) =
    let (ys, l, d, h, k) = count_distinct-Voters xs in
    elim (Bool-cases (occurs x xs)) [
      | inl e ↦ (ys, rw e l, d, still x xs ys h, λ a n. k a (ground (arith, n)))
      | inr e ↦ (
        x ∷ ys,
        rw e (omega (arith, l)),
        (k x e, d),
        (rw (text_refl x) refl, still x xs ys h),
        λ a n. ground (arith, n, k a),
      )
    ]
