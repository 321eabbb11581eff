-- ===== src/Base/Rows.antt =====
-- Changes of many rows of a table at once: a loop over a Go map that changes and deletes entries, or an
-- UPDATE or DELETE of all rows that meet a condition. A key stands in one row only.
use Prim.Native.String.{String}
use mathlib.Core.Path.{◌≡◌, refl}
use mathlib.Core.Bool.{false}
use mathlib.Core.Option.{Option, none, some}
use mathlib.Core.List.{[], ◌∷◌}
use mathlib.Core.Logic.{◌⊎◌, inl, inr}
use native.Mathlib.Omega.{arith}
use text.Mathlib.TextEquality.{eq_iff}
use claw_net.Base.Tests.{◌==◌, if◌then◌else◌, Bool-cases, Option-cases}
use claw_net.Base.Table.{Table, find, insert, update, find-insert}

module _ {ℓ} {V : Type ℓ} where
  -- No key stands in two rows.
  abbrev pub Distinct : Table V → Type ℓ
  Distinct [] = Unit
  Distinct ((k, v) ∷ t) = (find k t ≡ none) × Distinct t

  -- The rows that `f` keeps, changed by it.
  unfoldable pub edit : (String → V → Option V) → Table V → Table V
  edit f [] = []
  edit f ((k, v) ∷ t) = elim (f k v) [ none ↦ edit f t | some w ↦ (k, w) ∷ edit f t ]

  abbrev pub edit_row : (V → Option V) → Option V → Option V
  edit_row f none = none
  edit_row f (some v) = f v

  pub edit-absent :
      (f : String → V → Option V) (k : String) (t : Table V)
      → find k t ≡ none
      → find k (edit f t) ≡ none
  unfolding find edit
  edit-absent f k [] h = refl
  edit-absent f k ((j, v) ∷ t) h = elim (Option-cases (f j v)) [
    | inl e ↦ ground (arith, e, edit-absent f k t)
    | inr (w, e) ↦ ground (arith, e, edit-absent f k t)
  ]

  -- Each row is changed by itself.
  pub find-edit :
      (f : String → V → Option V) (k : String) (t : Table V)
      → Distinct t
      → find k (edit f t) ≡ edit_row (f k) (find k t)
  unfolding find edit
  find-edit f k [] d = refl
  find-edit f k ((j, v) ∷ t) d = elim (Bool-cases (j == k)) [
    | inl e ↦ let q : j ≡ k = (eq_iff j k).0 e in found q (Option-cases (f j v))
    | inr e ↦ skipped (find-edit f k t d.1) e (Option-cases (f j v))
  ]
    where
      found :
          j ≡ k
          → (f j v ≡ none) ⊎ ((w : V) × (f j v ≡ some w))
          → find k (edit f ((j, v) ∷ t)) ≡ edit_row (f k) (find k ((j, v) ∷ t))
      found q (inl g) =
          ground (arith, q, g, d, eq_iff j k, edit-absent f j t, eq_iff k k, eq_iff j j)
      found q (inr (w, g)) = ground (arith, q, g, eq_iff j k, eq_iff j j, eq_iff k k)

      skipped :
          find k (edit f t) ≡ edit_row (f k) (find k t)
          → (j == k) ≡ false
          → (f j v ≡ none) ⊎ ((w : V) × (f j v ≡ some w))
          → find k (edit f ((j, v) ∷ t)) ≡ edit_row (f k) (find k ((j, v) ∷ t))
      skipped ih e (inl g) = rw (edit, g, find, e) ih
      skipped ih e (inr (w, g)) = rw (edit, g, find, e) ih

  pub edit-Distinct : (f : String → V → Option V) (t : Table V) → Distinct t → Distinct (edit f t)
  unfolding edit
  edit-Distinct f [] d = d
  edit-Distinct f ((k, v) ∷ t) d = elim (Option-cases (f k v)) [
    | inl e ↦ rw (Distinct, e) (edit-Distinct f t d.1)
    | inr (w, e) ↦ rw (Distinct, e) (edit-absent f k t d.0, edit-Distinct f t d.1)
  ]

  pub insert-Distinct : (k : String) (v : V) (t : Table V) → Distinct t → Distinct (insert k v t)
  unfolding insert find
  insert-Distinct k v [] d = (refl, tt)
  insert-Distinct k v ((j, w) ∷ t) d = elim (Bool-cases (j == k)) [
    | inl e ↦ let q : j ≡ k = (eq_iff j k).0 e in rw (Distinct, e, ← q) d
    | inr e ↦
        rw (Distinct, e)
          (
            ground (arith, find-insert k j v t, eq_iff j k, eq_iff k j, d),
            insert-Distinct k v t d.1,
          )
  ]

  abbrev pub change_row : (V → V) → Option V → Option V
  change_row f none = none
  change_row f (some v) = some (f v)

  pub find-update :
      (k j : String) (f : V → V) (t : Table V)
      → find j (update k f t) ≡ (if k == j then change_row f (find j t) else find j t)
  find-update k j f t = elim (Option-cases (find k t)) [
    | inl e ↦ elim (Bool-cases (k == j)) [
      | inl s ↦ let q : k ≡ j = (eq_iff k j).0 s in rw (update, e, s, ← q, e) refl
      | inr s ↦ rw (update, e, s) refl
    ]
    | inr (v, e) ↦ elim (Bool-cases (k == j)) [
      | inl s ↦
          let q : k ≡ j = (eq_iff k j).0 s in
          rw (update, e, find-insert k j (f v) t, s, ← q, e) refl
      | inr s ↦ rw (update, e, find-insert k j (f v) t, s) refl
    ]
  ]

  pub update-Distinct :
      (k : String) (f : V → V) (t : Table V) → Distinct t → Distinct (update k f t)
  update-Distinct k f t d = elim (Option-cases (find k t)) [
    | inl e ↦ rw (update, e) d
    | inr (v, e) ↦ rw (update, e) (insert-Distinct k (f v) t d)
  ]
