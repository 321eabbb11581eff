-- ===== src/Base/Table.antt =====
-- An SQL table with a text primary key: the rows in insertion order, at most one for a key.
-- `find` is SELECT ... WHERE id = ?, `insert` is INSERT ... ON CONFLICT DO UPDATE, `update` is
-- UPDATE ... WHERE id = ?, `insert_new` is INSERT OR IGNORE.
use Prim.Native.String.{String}
use mathlib.Core.Path.{◌≡◌, refl, subst, sym}
use mathlib.Core.Bool.{Bool, true, false}
use mathlib.Core.Option.{Option, none, some}
use mathlib.Core.List.{List, [], ◌∷◌}
use mathlib.Core.Logic.{◌≢◌, inl, inr}
use native.Mathlib.Omega.{arith}
use text.Mathlib.TextEquality.{eq_iff}
use claw_net.Base.Tests.{◌==◌, if◌then◌else◌, Bool-cases, Option-cases}
use claw_net.Base.Lists.{All}
use claw_net.Base.Int.{ℤ, pos, ◌+ℤ◌, int_laws}

abbrev pub Table {ℓ} : Type ℓ → Type ℓ
Table V = List (String × V)

module _ {ℓ} {V : Type ℓ} where
  unfoldable pub find : String → Table V → Option V
  find k [] = none
  find k ((j, v) ∷ t) = if j == k then some v else find k t

  unfoldable pub insert : String → V → Table V → Table V
  insert k v [] = (k, v) ∷ []
  insert k v ((j, w) ∷ t) = if j == k then (k, v) ∷ t else (j, w) ∷ insert k v t

  abbrev pub contains : String → Table V → Bool
  contains k t = elim (find k t) [ none ↦ false | some _ ↦ true ]

  abbrev pub update : String → (V → V) → Table V → Table V
  update k f t = elim (find k t) [ none ↦ t | some v ↦ insert k (f v) t ]

  abbrev pub insert_new : String → V → Table V → Table V
  insert_new k v t = elim (find k t) [ none ↦ insert k v t | some _ ↦ t ]

  pub find-insert :
      (k j : String) (v : V) (t : Table V)
      → find j (insert k v t) ≡ (if k == j then some v else find j t)
  unfolding find insert
  find-insert k j v [] = refl
  find-insert k j v ((i, w) ∷ t) =
      ground (arith, eq_iff k j, eq_iff i k, eq_iff i j, find-insert k j v t)

  pub find-insert_self : (k : String) (v : V) (t : Table V) → find k (insert k v t) ≡ some v
  find-insert_self k v t = ground (arith, find-insert k k v t, eq_iff k k)

  pub find-insert_ne :
      (k j : String) (v : V) (t : Table V) → k ≢ j → find j (insert k v t) ≡ find j t
  find-insert_ne k j v t h = ground (arith, find-insert k j v t, eq_iff k j)

  -- A second write of a row hides the first.
  pub insert-insert :
      (k : String) (u v : V) (t : Table V) → insert k v (insert k u t) ≡ insert k v t
  unfolding insert
  insert-insert k u v [] = ground (arith, eq_iff k k)
  insert-insert k u v ((j, w) ∷ t) = ground (arith, eq_iff j k, eq_iff k k, insert-insert k u v t)

  -- Writing back the row that was read changes nothing.
  pub insert-find : (k : String) (v : V) (t : Table V) → find k t ≡ some v → insert k v t ≡ t
  unfolding insert find
  insert-find k v [] h = ground arith
  insert-find k v ((j, w) ∷ t) h = ground (arith, eq_iff j k, insert-find k v t)

  -- A property of every row.
  abbrev pub AllRows {κ} : (V → Type κ) → Table V → Type κ
  AllRows P = All (λ r. P r.1)

  pub find-AllRows {κ} :
      (P : V → Type κ) (k : String) (v : V) (t : Table V) → AllRows P t → find k t ≡ some v → P v
  unfolding find
  find-AllRows P k v [] h e = absurd (ground arith)
  find-AllRows P k v ((j, w) ∷ t) h e = elim (Bool-cases (j == k)) [
    | inl same ↦ let q : w ≡ v = ground arith in subst P q h.0
    | inr other ↦ find-AllRows P k v t h.1 (rw other at e)
  ]

  pub insert-AllRows {κ} :
      (P : V → Type κ) (k : String) (v : V) (t : Table V)
      → AllRows P t
      → P v
      → AllRows P (insert k v t)
  unfolding insert
  insert-AllRows P k v [] h p = (p, tt)
  insert-AllRows P k v ((j, w) ∷ t) h p = elim (Bool-cases (j == k)) [
    | inl same ↦ rw same (p, h.1)
    | inr other ↦ rw other (h.0, insert-AllRows P k v t h.1 p)
  ]

  -- A sum over the rows, and what the row of a key adds to it.
  unfoldable pub sum : (V → ℤ) → Table V → ℤ
  sum w [] = pos 0
  sum w ((_, v) ∷ t) = w v +ℤ sum w t

  abbrev pub weight : (V → ℤ) → Option V → ℤ
  weight w none = pos 0
  weight w (some v) = w v

  pub sum-insert :
      (w : V → ℤ) (k : String) (v : V) (t : Table V)
      → sum w (insert k v t) +ℤ weight w (find k t) ≡ sum w t +ℤ w v
  unfolding sum insert find
  sum-insert w k v [] = omega int_laws
  sum-insert w k v ((j, u) ∷ t) = grind (int_laws, sum-insert w k v t)

  -- A change of a row that its weight does not show changes no row's weight.
  pub weight-update :
      (w : V → ℤ) (f : V → V) (k j : String) (t : Table V)
      → ((v : V) → w (f v) ≡ w v)
      → weight w (find j (update k f t)) ≡ weight w (find j t)
  weight-update w f k j t h = elim (Option-cases (find k t)) [
    | inl e ↦ rw (e, update) refl
    | inr (v, e) ↦ elim (Bool-cases (k == j)) [
      | inl same ↦
          let q : k ≡ j = ground (arith, eq_iff k j) in
          rw (e, update, find-insert k j (f v) t, same, sym q, e) (h v)
      | inr other ↦ rw (e, update, find-insert k j (f v) t, other) refl
    ]
  ]
