-- ===== src/Swarms/Expiry.antt =====
-- Which swarms are closed when their time is over: `CloseExpiredSwarms` of
-- clawnet-cli/internal/store/swarm.go.
use claw_net.Base.{
  String, Bool, false, Option, none, some, List, [], ◌∷◌, ◌≡◌, refl, arith, inl, inr, if◌then◌else◌,
  ◌==◌, Bool-cases, text_same,
}
use claw_net.Base.Table.{Table, find, update}
use claw_net.Base.Rows.{Distinct, change_row, find-update}
use claw_net.Predictions.Market.{occurs}
use claw_net.Swarms.{
  Swarm, SwarmStore, has_expired, ids_where, shut, close_swarms, close_expired_swarms,
}

shut_twice : (o : Option Swarm) → change_row shut (change_row shut o) ≡ change_row shut o
shut_twice none = refl
shut_twice (some sw) = refl

-- Whether the row of a key, if there is one, passes.
abbrev pub row_passes : (Swarm → Bool) → Option Swarm → Bool
row_passes test none = false
row_passes test (some sw) = test sw

find-close_swarms :
    (ids : List String) (k : String) (t : Table Swarm)
    → find k (close_swarms ids t) ≡ (if occurs k ids then change_row shut (find k t) else find k t)
unfolding close_swarms
find-close_swarms [] k t = refl
find-close_swarms (id ∷ ids) k t = elim (Bool-cases (id == k)) [
  | inl e ↦ elim (Bool-cases (occurs k ids)) [
    | inl o ↦
        rw
          (
            e,
            close_swarms,
            find-close_swarms ids k (update id shut t),
            o,
            find-update id k shut t,
            e,
          )
          (shut_twice (find k t))
    | inr o ↦
        rw
          (
            e,
            close_swarms,
            find-close_swarms ids k (update id shut t),
            o,
            find-update id k shut t,
            e,
          )
          refl
  ]
  | inr e ↦ elim (Bool-cases (occurs k ids)) [
    | inl o ↦
        rw
          (
            e,
            close_swarms,
            find-close_swarms ids k (update id shut t),
            o,
            find-update id k shut t,
            e,
          )
          refl
    | inr o ↦
        rw
          (
            e,
            close_swarms,
            find-close_swarms ids k (update id shut t),
            o,
            find-update id k shut t,
            e,
          )
          refl
  ]
]

absent_unlisted :
    (test : Swarm → Bool) (k : String) (t : Table Swarm)
    → find k t ≡ none
    → occurs k (ids_where test t) ≡ false
unfolding find
absent_unlisted test k [] h = refl
absent_unlisted test k ((j, sw) ∷ t) h = elim (Bool-cases (j == k)) [
  | inl e ↦ absurd (ground (arith, rw e at h))
  | inr e ↦ elim (Bool-cases (test sw)) [
    | inl p ↦ rw (p, e) (absent_unlisted test k t (rw e at h))
    | inr p ↦ rw p (absent_unlisted test k t (rw e at h))
  ]
]

occurs-ids_where :
    (test : Swarm → Bool) (k : String) (t : Table Swarm)
    → Distinct t
    → occurs k (ids_where test t) ≡ row_passes test (find k t)
unfolding find
occurs-ids_where test k [] d = refl
occurs-ids_where test k ((j, sw) ∷ t) d = elim (Bool-cases (j == k)) [
  | inl e ↦ elim (Bool-cases (test sw)) [
    | inl p ↦ rw (p, e, p) refl
    | inr p ↦
        let q : j ≡ k = text_same j k e in rw (p, e, p) (absent_unlisted test k t (rw (← q) d.0))
  ]
  | inr e ↦ elim (Bool-cases (test sw)) [
    | inl p ↦ rw (p, e) (occurs-ids_where test k t d.1)
    | inr p ↦ rw (p, e) (occurs-ids_where test k t d.1)
  ]
]

-- In a table in which every id stands once, what is closed is each open swarm whose deadline is a text below the time's,
-- and the rest of the table stays as it is; the ids that are returned are those of the closed ones.
pub close_expired_swarms_closes :
    (now : String) (s : SwarmStore) (k : String)
    → Distinct s.swarms
    → let (s', ids) = close_expired_swarms now s in
      let expired = row_passes (has_expired now) (find k s.swarms) in
      (find k s'.swarms ≡ (if expired then change_row shut (find k s.swarms) else find k s.swarms))
      × (occurs k ids ≡ expired)
      × (s'.contributions ≡ s.contributions)
unfolding close_expired_swarms
close_expired_swarms_closes now s k d =
    let o = occurs-ids_where (has_expired now) k s.swarms d in
    (rw (find-close_swarms (ids_where (has_expired now) s.swarms) k s.swarms, o) refl, o, refl)
