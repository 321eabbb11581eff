-- ===== src/P2p/Records/Newest.antt =====
-- `Select` takes the newest of the values that verify.
use claw_net.Base.{
  ℕ, zero, suc, ◌+◌, ◌≡◌, refl, sym, ap, arith, String, Option, some, List, [], ◌∷◌, get_elem?,
  Bytes, Bool-cases, Option-cases, inl, inr, ◌⊎◌, All, subst,
}
use claw_net.Base.Int.{ℤ, pos, ltb_ℤ, ◌<ℤ◌, ◌≤ℤ◌}
use claw_net.P2p.Records.{PeerKeys, Json, verify_record, select_from, select_record}

module _ {R : Type 0} (json : Json R) (keys : PeerKeys) (prefix : String) (peer_of : R → String)
    (time_of : R → ℤ) (key : String) where
  abbrev verified : Bytes → Option R
  verified = verify_record json keys prefix peer_of time_of key

  -- The value at an index verifies, as a record of at least a time.
  abbrev pub NotOlder : ℤ → List Bytes → ℕ → Type 0
  NotOlder t vs i =
      (v : Bytes) × (r : R) × (get_elem? vs i ≡ some v) × (verified v ≡ some r) × (t ≤ℤ time_of r)

  abbrev NotNewer : ℤ → Bytes → Type 0
  NotNewer t v = (r : R) → verified v ≡ some r → time_of r ≤ℤ t

  not_newer : (t : ℤ) (v : Bytes) (r : R) → verified v ≡ some r → time_of r ≤ℤ t → NotNewer t v
  not_newer t v r e h r' e' = let q : r ≡ r' = cc in subst (λ x. time_of x ≤ℤ t) q h

  -- The loop keeps the index that it has, and no value is newer than its time, or it ends with that of a newer
  -- value, and no value is newer than that one.
  abbrev Outcome : ℕ → ℕ → ℤ → List Bytes → ℕ → Type 0
  Outcome i best best_time vs chosen =
      ((chosen ≡ best) × All (NotNewer best_time) vs)
      ⊎ ((k : ℕ) × (w : Bytes) × (s : R) × (chosen ≡ i + k)
          × (get_elem? vs k ≡ some w)
          × (verified w ≡ some s)
          × (best_time <ℤ time_of s)
          × All (NotNewer (time_of s)) vs)

  abbrev chosen_of : ℕ → ℕ → ℤ → List Bytes → ℕ
  chosen_of i best best_time vs =
      select_from json keys prefix peer_of time_of key i best best_time vs

  skip-Outcome :
      (v : Bytes) (vs : List Bytes) (i best : ℕ) (best_time : ℤ) (chosen : ℕ)
      → NotNewer best_time v
      → Outcome (i + 1) best best_time vs chosen
      → Outcome i best best_time (v ∷ vs) chosen
  skip-Outcome v vs i best best_time chosen h (inl (c, b)) = inl (c, (h, b))
  skip-Outcome v vs i best best_time chosen h (inr (k, w, s, c, g, e, lt, b)) =
      inr (suc k, w, s, omega (arith, c), g, e, lt, ((λ r q. omega (arith, h r q, lt)), b))

  take-Outcome :
      (v : Bytes) (r : R) (vs : List Bytes) (i best : ℕ) (best_time : ℤ) (chosen : ℕ)
      → verified v ≡ some r
      → best_time <ℤ time_of r
      → Outcome (i + 1) i (time_of r) vs chosen
      → Outcome i best best_time (v ∷ vs) chosen
  take-Outcome v r vs i best best_time chosen e lt (inl (c, b)) =
      inr (0, v, r, omega (arith, c), refl, e, lt, (not_newer (time_of r) v r e (omega arith), b))
  take-Outcome v r vs i best best_time chosen e lt (inr (k, w, s, c, g, q, lt', b)) = inr (
    suc k,
    w,
    s,
    omega (arith, c),
    g,
    q,
    omega (arith, lt, lt'),
    (not_newer (time_of s) v r e (omega (arith, lt')), b),
  )

  select_from-Outcome :
      (vs : List Bytes) (i best : ℕ) (best_time : ℤ)
      → Outcome i best best_time vs (chosen_of i best best_time vs)
  unfolding select_from
  select_from-Outcome [] i best best_time = inl (refl, tt)
  select_from-Outcome (v ∷ vs) i best best_time = elim (Option-cases (verified v)) [
    | inl e ↦
        let same : chosen_of i best best_time (v ∷ vs) ≡ chosen_of (i + 1) best best_time vs =
          rw (e, select_from) refl in
        subst (Outcome i best best_time (v ∷ vs)) (sym same) (
          skip-Outcome v vs i best best_time (chosen_of (i + 1) best best_time vs) (λ r q. cc)
            (select_from-Outcome vs (i + 1) best best_time))
    | inr (r, e) ↦ elim (Bool-cases (ltb_ℤ best_time (time_of r))) [
      | inl newer ↦
          let same : chosen_of i best best_time (v ∷ vs) ≡ chosen_of (i + 1) i (time_of r) vs =
            rw (e, select_from, newer) refl in
          subst (Outcome i best best_time (v ∷ vs)) (sym same) (
            take-Outcome v r vs i best best_time (chosen_of (i + 1) i (time_of r) vs) e
              (ground arith) (select_from-Outcome vs (i + 1) i (time_of r)))
      | inr older ↦
          let same : chosen_of i best best_time (v ∷ vs) ≡ chosen_of (i + 1) best best_time vs =
            rw (e, select_from, older) refl in
          subst (Outcome i best best_time (v ∷ vs)) (sym same) (
            skip-Outcome v vs i best best_time (chosen_of (i + 1) best best_time vs)
              (not_newer best_time v r e (ground arith))
              (select_from-Outcome vs (i + 1) best best_time))
    ]
  ]

  get-NotNewer :
      (t : ℤ) (vs : List Bytes) (j : ℕ) (v : Bytes)
      → All (NotNewer t) vs
      → get_elem? vs j ≡ some v
      → NotNewer t v
  get-NotNewer t [] j v h g = cc g
  get-NotNewer t (x ∷ vs) zero v h g = let q : x ≡ v = cc g in subst (NotNewer t) q h.0
  get-NotNewer t (x ∷ vs) (suc j) v h g = get-NotNewer t vs j v h.1 g

  -- Where one of the values verifies for the key, as a record of a time after 0, the value whose index is chosen
  -- verifies too, as a record that is not older; so it is the newest of them.
  pub select_record-NotOlder :
      (vs : List Bytes) (j : ℕ) (v : Bytes) (r : R)
      → get_elem? vs j ≡ some v
      → verified v ≡ some r
      → pos 0 <ℤ time_of r
      → (i : ℕ) × (select_record json keys prefix peer_of time_of key vs ≡ some i)
        × NotOlder (time_of r) vs i
  unfolding select_record
  select_record-NotOlder [] j v r g e h = absurd (cc g)
  select_record-NotOlder (x ∷ vs) j v r g e h = elim (select_from-Outcome (x ∷ vs) 0 0 (pos 0)) [
    | inl (c, b) ↦ absurd (omega (arith, get-NotNewer (pos 0) (x ∷ vs) j v b g r e, h))
    | inr (k, w, s, c, g', e', lt, b) ↦
        let i : chosen_of 0 0 (pos 0) (x ∷ vs) ≡ k = omega (arith, c) in
        (k, ap some i, (w, s, g', e', get-NotNewer (time_of s) (x ∷ vs) j v b g r e))
  ]
