-- ===== src/Daemon/Swarms/Ticks.antt =====
-- What a tick of the expiry loop does: `swarmExpiryLoop` of clawnet-cli/internal/daemon/phase2_gossip.go.
use claw_net.Base.{
  ◌≤◌, ◌<◌, String, true, false, none, some, List, [], ◌∷◌, ◌≡◌, ◌∙◌, refl, sym, ap, arith, inl,
  inr, if◌then◌else◌, ◌==◌, ltb, Bool-cases, text_same, text_refl,
}
use claw_net.Base.Table.{find}
use claw_net.Base.Rows.{Distinct, change_row}
use claw_net.Predictions.Market.{occurs}
use claw_net.Swarms.{
  SwarmContribution, SwarmStore, has_expired, shut, close_expired_swarms, list_swarm_contributions,
}
use claw_net.Swarms.Expiry.{row_passes, close_expired_swarms_closes}
use claw_net.Daemon.Node.{Node, recalc_reputation}
use claw_net.Daemon.Swarms.{
  Swarming, SwarmEnv, recalc_authors, report_closed, expire_swarms, with_swarms,
}

module _ (m : SwarmEnv) where
  recalc_authors-ledger :
      (seen : List String) (cs : List SwarmContribution) (n : Node)
      → (recalc_authors m seen cs n).ledger ≡ n.ledger
  unfolding recalc_authors recalc_reputation
  recalc_authors-ledger seen [] n = refl
  recalc_authors-ledger seen (c ∷ cs) n = elim (Bool-cases (occurs c.author_id seen)) [
    | inl e ↦ rw (recalc_authors, e) (recalc_authors-ledger seen cs n)
    | inr e ↦
        rw (recalc_authors, e)
          (recalc_authors-ledger (c.author_id ∷ seen) cs (recalc_reputation c.author_id n))
  ]

  abbrev reported : String → Swarming → Swarming
  reported id e = record e {
    node = recalc_authors m [] (list_swarm_contributions id 1000 e.swarms) e.node;
  }

  abbrev Returns : List String → Swarming → Type 0
  Returns ids e =
      (e' : Swarming) × (report_closed m ids e ≡ some e')
      × (e'.swarms ≡ e.swarms)
      × (e'.node.ledger ≡ e.node.ledger)

  report_closed-Returns :
      (ids : List String) (e : Swarming)
      → ((id : String) → occurs id ids ≡ true → 8 ≤ m.byte_length id)
      → Returns ids e
  unfolding report_closed
  report_closed-Returns [] e h = (e, refl, refl, refl)
  report_closed-Returns (id ∷ ids) e h =
      let long : 8 ≤ m.byte_length id = h id (rw (text_refl id) refl) in
      let t : ltb (m.byte_length id) 8 ≡ false = ground (arith, long) in
      let (e', r, s, l) =
        report_closed-Returns ids (reported id e) (λ j o. h j (ground (arith, o))) in
      (
        e',
        rw (report_closed, t) r,
        s,
        l ∙ recalc_authors-ledger [] (list_swarm_contributions id 1000 e.swarms) e.node,
      )

  report_closed_panics :
      (ids : List String) (e : Swarming) (id : String)
      → occurs id ids ≡ true
      → m.byte_length id < 8
      → report_closed m ids e ≡ none
  unfolding report_closed
  report_closed_panics [] e id o h = absurd (ground (arith, o))
  report_closed_panics (j ∷ ids) e id o h = elim (Bool-cases (ltb (m.byte_length j) 8)) [
    | inl t ↦ rw (report_closed, t) refl
    | inr t ↦ elim (Bool-cases (j == id)) [
      | inl q ↦
          let same : j ≡ id = text_same j id q in
          let short : m.byte_length j < 8 = rw same h in absurd (ground (arith, t, short))
      | inr q ↦ rw (report_closed, t) (report_closed_panics ids (reported j e) id (rw q at o) h)
    ]
  ]

  -- A swarm counts as expired when it is open and its deadline is, as a text, below the text of the current
  -- time. In a table of swarms in which every id stands once, a tick panics where an expired swarm has an id of
  -- less than 8 bytes. Where none has, it returns; then each swarm that was expired is closed, the others are
  -- as before, and no account has changed.
  pub expire_swarms_outcome :
      (e : Swarming)
      → Distinct e.swarms.swarms
      → ((id : String)
          → row_passes (has_expired m.now_sql) (find id e.swarms.swarms) ≡ true
          → m.byte_length id < 8
          → expire_swarms m e ≡ none)
        × (((id : String)
              → row_passes (has_expired m.now_sql) (find id e.swarms.swarms) ≡ true
              → 8 ≤ m.byte_length id)
            → (e' : Swarming) × (expire_swarms m e ≡ some e')
              × (e'.node.ledger ≡ e.node.ledger)
              × ((id : String)
                  → let before = find id e.swarms.swarms in
                    find id e'.swarms.swarms ≡ (
                      if row_passes (has_expired m.now_sql) before
                      then change_row shut before
                      else before)))
  unfolding expire_swarms
  expire_swarms_outcome e d =
      let (s, ids) = close_expired_swarms m.now_sql e.swarms in
      (
        λ id x h.
            report_closed_panics ids (with_swarms s e) id
              ((close_expired_swarms_closes m.now_sql e.swarms id d).1 ∙ x) h,
        λ long.
            let (e', r, w, l) =
              report_closed-Returns ids (with_swarms s e) (λ id o.
                long id (sym (close_expired_swarms_closes m.now_sql e.swarms id d).1 ∙ o)) in
            (
              e',
              r,
              l,
              λ id.
                  ap (λ (x : SwarmStore). find id x.swarms) w
                  ∙ (close_expired_swarms_closes m.now_sql e.swarms id d).0,
            ),
      )
