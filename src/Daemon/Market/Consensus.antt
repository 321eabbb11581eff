-- ===== src/Daemon/Market/Consensus.antt =====
-- How a prediction gets its result: `handlePredictionResolve` of clawnet-cli/internal/daemon/phase2_api.go.
use claw_net.Base.{
  ℕ, ◌≤◌, String, true, false, Option, none, some, List, ◌≡◌, ◌∙◌, refl, sym, ap, arith, inl, inr,
  ◌⊎◌, if◌then◌else◌, ◌==◌, leb, length, All, Bool-cases, Option-cases, text_same,
}
use claw_net.Base.Table.{find, update}
use claw_net.Base.Rows.{find-update}
use claw_net.Credits.{StoreError}
use claw_net.Predictions.Market.{
  Market, Prediction, PredictionStatus, open_, pending, resolved, cancelled, PredictionResolution,
  is_open, is_pending, occurs, count_resolutions, resolvers, get_prediction,
  set_pending_with_appeal, insert_prediction_resolution,
}
use claw_net.Predictions.Market.Votes.{AllDiffer, count_distinct-Voters}
use claw_net.Daemon.Market.{
  Exchange, MarketEnv, validate_prediction_option, publish_prediction_resolution, reach_consensus,
  handle_prediction_resolve, send, stored_then_sent, MarketMessage, resolution_msg, new_id,
  count_id,
}

unwrap : (p q : Prediction) → some p ≡ some q → p ≡ q
unwrap p q h = ground (arith, h)

insert_prediction_resolution-predictions :
    (r : PredictionResolution) (s : Market)
    → (insert_prediction_resolution r s).0.predictions ≡ s.predictions
unfolding insert_prediction_resolution
insert_prediction_resolution-predictions r s = ground arith

module _ (m : MarketEnv) where
  send-market : (msg : MarketMessage) (e : Exchange) → (send m msg e).0.market ≡ e.market
  send-market msg e = ground arith

  stored_then_sent-market :
      (msg : MarketMessage) (e : Exchange) (x : Market × Option StoreError)
      → (stored_then_sent m msg e x).0.market ≡ x.0
  stored_then_sent-market msg e (s, some _) = refl
  stored_then_sent-market msg e (s, none) = send-market msg (record e { market = s })

  publish_prediction_resolution-predictions :
      (r : PredictionResolution) (e : Exchange)
      → (publish_prediction_resolution m r e).0.market.predictions ≡ e.market.predictions
  unfolding publish_prediction_resolution
  publish_prediction_resolution-predictions r e =
      let r' : PredictionResolution = record r { id = new_id m r.id e; resolver_id = m.env.self } in
      let x = insert_prediction_resolution r' e.market in
      ap (λ (s : Market). s.predictions)
        (stored_then_sent-market (resolution_msg r') (count_id m r.id e) x)
      ∙ insert_prediction_resolution-predictions r' e.market

  -- Three different peers proposed this result, and the row holds the appeal deadline that the environment gives.
  abbrev pub Agreed : String → Prediction → Exchange → Type 0
  Agreed id p e =
      (p.appeal_deadline ≡ m.deadline)
      × ((ys : List String) × (3 ≤ length ys)
          × AllDiffer ys
          × All (λ y. occurs y (resolvers id p.result e.market) ≡ true) ys)

  -- What was open and is pending is the prediction `id`, and three peers agreed on its result.
  abbrev pub NeedsThree : String → Exchange → Exchange → Type 0
  NeedsThree id e e' =
      (j : String) (p p' : Prediction)
      → find j e.market.predictions ≡ some p
      → is_open p.status ≡ true
      → find j e'.market.predictions ≡ some p'
      → is_pending p'.status ≡ true
      → (j ≡ id) × Agreed id p' e'

  not_both : (s : PredictionStatus) → is_open s ≡ true → is_pending s ≡ true → ⊥
  not_both open_ h k = ground (arith, k)
  not_both pending h k = ground (arith, h)
  not_both resolved h k = ground (arith, h)
  not_both cancelled h k = ground (arith, h)

  unchanged :
      (id : String) (e e' : Exchange)
      → e'.market.predictions ≡ e.market.predictions
      → NeedsThree id e e'
  unchanged id e e' same j p p' f o f' q =
      let k : some p ≡ some p' = sym f ∙ sym (ap (find j) same) ∙ f' in
      let r : p ≡ p' = unwrap p p' k in
      absurd (not_both p'.status (sym (ap (λ (x : Prediction). is_open x.status) r) ∙ o) q)

  abbrev proposal : String → String → String → PredictionResolution
  proposal id result url = record {
    id = "";
    prediction_id = id;
    resolver_id = "";
    result = result;
    evidence_url = url;
  }

  abbrev started : String → Prediction → Prediction
  started result p =
      if is_open p.status
      then record p { status = pending; result = result; appeal_deadline = m.deadline }
      else p

  -- Three proposals of the same result, by the row that then changes.
  voters :
      (id result : String) (p : Prediction) (s : Market)
      → leb 3 (count_resolutions id result s) ≡ true
      → is_open p.status ≡ true
      → ((started result p).appeal_deadline ≡ m.deadline)
        × ((ys : List String) × (3 ≤ length ys)
            × AllDiffer ys
            × All (λ y. occurs y (resolvers id (started result p).result s) ≡ true) ys)
  unfolding count_resolutions
  voters id result p s c o =
      let v = count_distinct-Voters (resolvers id result s) in
      let l : length v.0 ≡ count_resolutions id result s = v.1 in
      let three : 3 ≤ count_resolutions id result s = ground (arith, c) in
      rw o (refl, (v.0, omega (arith, three, l), v.2, v.3))

  row_after :
      (id result : String) (j : String) (p p' : Prediction) (e e1 : Exchange)
      → e1.market.predictions ≡ e.market.predictions
      → find j e.market.predictions ≡ some p
      → find j (update id (started result) e1.market.predictions) ≡ some p'
      → ((id ≡ j) × (started result p ≡ p')) ⊎ (p ≡ p')
  row_after id result j p p' e e1 same f f' =
      let g : find j e1.market.predictions ≡ some p = ap (find j) same ∙ f in
      let h = sym (find-update id j (started result) e1.market.predictions) ∙ f' in
      elim (Bool-cases (id == j)) [
        | inl t ↦ inl (text_same id j t, unwrap (started result p) p' (rw (t, g) at h))
        | inr t ↦ inr (unwrap p p' (rw (t, g) at h))
      ]

  agreed :
      (id result : String) (e e1 : Exchange)
      → e1.market.predictions ≡ e.market.predictions
      → NeedsThree id e (reach_consensus m id result e1)
  unfolding reach_consensus set_pending_with_appeal
  agreed id result e e1 same = elim (Bool-cases (leb 3 (count_resolutions id result e1.market))) [
    | inl c ↦
        rw (reach_consensus, c)
          (λ j p p' f o f' q. elim (row_after id result j p p' e e1 same f f') [
            | inl (k, r) ↦ (sym k, rw (← r) (voters id result p e1.market c o))
            | inr r ↦
                absurd
                  (not_both p'.status (sym (ap (λ (x : Prediction). is_open x.status) r) ∙ o) q)
          ])
    | inr c ↦ rw (reach_consensus, c) (unchanged id e e1 same)
  ]

  -- A request to resolve a prediction, whatever it asks for and whatever is stored, makes no open prediction pending but its
  -- own, and that one only where three different peers' proposals of its new result are then stored; the row gets the
  -- appeal deadline that the handler computed.
  pub handle_prediction_resolve-NeedsThree :
      (id : String) (body : Option (String × String)) (e : Exchange)
      → NeedsThree id e (handle_prediction_resolve m id body e).0
  unfolding handle_prediction_resolve
  handle_prediction_resolve-NeedsThree id none e = unchanged id e e refl
  handle_prediction_resolve-NeedsThree id (some (result, url)) e =
      elim (Bool-cases (result == "")) [
        | inl a ↦ rw (handle_prediction_resolve, a) (unchanged id e e refl)
        | inr a ↦ elim (Option-cases (get_prediction id e.market)) [
          | inl b ↦ rw (handle_prediction_resolve, a, b) (unchanged id e e refl)
          | inr (p, b) ↦ elim (Bool-cases (is_open p.status)) [
            | inl c ↦ elim (Bool-cases (validate_prediction_option m.env p.options result)) [
              | inl d ↦
                  rw (handle_prediction_resolve, a, b, c, d)
                    (sent_or_not
                      (Bool-cases (publish_prediction_resolution m (proposal id result url) e).1))
              | inr d ↦ rw (handle_prediction_resolve, a, b, c, d) (unchanged id e e refl)
            ]
            | inr c ↦ rw (handle_prediction_resolve, a, b, c) (unchanged id e e refl)
          ]
        ]
      ]
    where
      e1 : Exchange
      e1 = (publish_prediction_resolution m (proposal id result url) e).0

      sent_or_not :
          ((publish_prediction_resolution m (proposal id result url) e).1 ≡ true)
            ⊎ ((publish_prediction_resolution m (proposal id result url) e).1 ≡ false)
          → NeedsThree id e
              (if◌then◌else◌ {A = Exchange × ℕ}
                (publish_prediction_resolution m (proposal id result url) e).1
                (reach_consensus m id result e1, 200)
                (e1, 500)).0
      sent_or_not (inl s) = rw s (
          agreed id result e e1
            (publish_prediction_resolution-predictions (proposal id result url) e))
      sent_or_not (inr s) =
          rw s (
            unchanged id e e1
              (publish_prediction_resolution-predictions (proposal id result url) e))
