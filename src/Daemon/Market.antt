-- ===== src/Daemon/Market.antt =====
-- The prediction market of a node: the handlers `handleCreatePrediction` to `handlePredictionAppeal` of
-- clawnet-cli/internal/daemon/phase2_api.go, less those that only read, and the prediction part of
-- clawnet-cli/internal/daemon/phase2_gossip.go. A handler returns the state and the status code of its
-- response; the body of a request is the value that it decodes to, `none` when that fails.
use claw_net.Base.{
  ℕ, suc, zero, String, Bool, true, false, not, ◌&&◌, ◌||◌, Option, none, some, List, [], ◌∷◌,
  if◌then◌else◌, ◌==◌, length, ltb, leb,
}
use claw_net.Base.Int.{ℤ, pos, ltb_ℤ, leb_ℤ}
use claw_net.Credits.{StoreError, freeze_credits, unfreeze_credits, add_credits}
use claw_net.Predictions.{PredictionBet, settle_prediction as settlement_of}
use claw_net.Predictions.Market.{
  Market, Prediction, PredictionStatus, open_, PredictionResolution, PredictionAppeal, is_open,
  is_pending, occurs, insert_prediction, get_prediction, insert_prediction_bet,
  list_prediction_bets, insert_prediction_resolution, count_resolutions, set_pending_with_appeal,
  insert_prediction_appeal, count_appeals, revert_prediction_to_open,
  list_expired_pending_predictions,
}
use claw_net.Daemon.Node.{Node, Env, pay, publish_credit_audit}
use claw_net.Daemon.Gossip.{gossip_author_ok}
use claw_net.Daemon.TaskApi.{ok, bad_request, not_found, internal_error}
pub mod Settlement
pub mod NewIds
pub mod Minting
pub mod Consensus
mod Examples

-- `GossipPredictionMsg`, by its type.
pub data MarketMessage : Type 0 where
  prediction_msg : Prediction → MarketMessage
  bet_msg : PredictionBet → MarketMessage
  resolution_msg : PredictionResolution → MarketMessage
  appeal_msg : PredictionAppeal → MarketMessage

-- A node with the tables of its prediction market, and what it published on that topic.
pub record Exchange : Type 0 where
  pub node : Node
  pub market : Market
  pub sent : List MarketMessage

-- Besides `Env`: whether the network takes a message, the time 24 hours from now as time.Format makes it, and
-- datetime('now').
pub record MarketEnv : Type 0 where
  pub env : Env
  pub carries : MarketMessage → Bool
  pub deadline : String
  pub now_sql : String

-- `ValidatePredictionOption`: whether it returns no error.
unfoldable pub validate_prediction_option : Env → String → String → Bool
validate_prediction_option env options option = elim (env.unmarshal options) [
  | none ↦ false
  | some os ↦ occurs option os
]

module _ (m : MarketEnv) where
  open m use {env, carries, deadline, now_sql}

  abbrev peer_id : String
  peer_id = env.self

  abbrev send : MarketMessage → Exchange → Exchange × Bool
  send msg e = if carries msg then (record e { sent = msg ∷ e.sent }, true) else (e, false)

  abbrev new_id : String → Exchange → String
  new_id id e = if id == "" then env.uuid e.node.uuids else id

  abbrev count_id : String → Exchange → Exchange
  count_id id e = record e {
    node = record (e.node) { uuids = if id == "" then suc e.node.uuids else e.node.uuids };
  }

  -- The insertion's outcome, then the message; whether neither failed.
  abbrev stored_then_sent : MarketMessage → Exchange → Market × Option StoreError → Exchange × Bool
  stored_then_sent msg e (s, some _) = (record e { market = s }, false)
  stored_then_sent msg e (s, none) = send msg (record e { market = s })

  unfoldable pub publish_prediction : Prediction → Exchange → Exchange × Bool
  publish_prediction p e =
      let p' = record p { id = new_id p.id e; creator_id = peer_id; status = open_ } in
      stored_then_sent (prediction_msg p') (count_id p.id e) (insert_prediction p' e.market, none)

  unfoldable pub publish_prediction_bet : PredictionBet → Exchange → Exchange × Bool
  publish_prediction_bet b e =
      let b' = record b { id = new_id b.id e; bettor_id = peer_id } in
      stored_then_sent (bet_msg b') (count_id b.id e) (insert_prediction_bet b' e.market)

  unfoldable pub publish_prediction_resolution : PredictionResolution → Exchange → Exchange × Bool
  publish_prediction_resolution r e =
      let r' = record r { id = new_id r.id e; resolver_id = peer_id } in
      stored_then_sent (resolution_msg r') (count_id r.id e)
        (insert_prediction_resolution r' e.market)

  unfoldable pub publish_prediction_appeal : PredictionAppeal → Exchange → Exchange × Bool
  publish_prediction_appeal a e =
      let a' = record a { id = new_id a.id e } in
      stored_then_sent (appeal_msg a') (count_id a.id e) (insert_prediction_appeal a' e.market)

  -- The options are encoded again from the decoded list.
  unfoldable pub handle_create_prediction :
      Option (Prediction × List String) → Exchange → Exchange × ℕ
  handle_create_prediction none e = (e, bad_request)
  handle_create_prediction (some (p, options)) e =
      if p.question == "" || ltb (length options) 2
      then (e, bad_request)
      else if p.resolution_date == ""
      then (e, bad_request)
      else let category = if p.category == "" then "custom" else p.category in
        let (e', sent) =
          publish_prediction
            (record {
              id = "";
              creator_id = "";
              question = p.question;
              options = env.marshal options;
              category = category;
              resolution_date = p.resolution_date;
              resolution_source = p.resolution_source;
              status = open_;
              result = "";
              total_stake = pos 0;
              appeal_deadline = "";
            })
            e in
        (e', (if sent then ok else internal_error))

  -- The bet that a request asks for: its option and its stake.
  abbrev bet_on : String → String → ℤ → PredictionBet
  bet_on id option stake = record {
    id = "";
    prediction_id = id;
    bettor_id = "";
    option = option;
    stake = stake;
  }

  -- After FreezeCredits went through.
  unfoldable pub place_bet : String → String → ℤ → Exchange → Exchange × ℕ
  place_bet id option stake e =
      let (e', sent) = publish_prediction_bet (bet_on id option stake) e in
      if sent then (e', ok) else (
        record e' {
          node = record (e'.node) { ledger = unfreeze_credits peer_id stake e'.node.ledger };
        },
        internal_error,
      )

  abbrev with_stake : String → String → ℤ → Exchange → Exchange × ℕ
  with_stake id option stake e =
      let (l, err) = freeze_credits peer_id stake e.node.ledger in
      elim err [
        | none ↦ place_bet id option stake (record e { node = record (e.node) { ledger = l } })
        | some StoreError.insufficient_credits ↦ (e, bad_request)
        | some _ ↦ (e, internal_error)
      ]

  unfoldable pub handle_prediction_bet : String → Option (String × ℤ) → Exchange → Exchange × ℕ
  handle_prediction_bet id none e = (e, bad_request)
  handle_prediction_bet id (some (option, stake)) e =
      if option == "" || leb_ℤ stake (pos 0)
      then (e, bad_request)
      else elim (get_prediction id e.market) [
        | none ↦ (e, not_found)
        | some p ↦
            if not (is_open p.status)
            then (e, bad_request)
            else if not (validate_prediction_option env p.options option)
            then (e, bad_request)
            else with_stake id option stake e
      ]

  -- After the proposal is published: three peers that agree start the period for appeals.
  unfoldable pub reach_consensus : String → String → Exchange → Exchange
  reach_consensus id result e =
      if leb 3 (count_resolutions id result e.market)
      then record e { market = set_pending_with_appeal id result deadline e.market }
      else e

  unfoldable pub handle_prediction_resolve :
      String → Option (String × String) → Exchange → Exchange × ℕ
  handle_prediction_resolve id none e = (e, bad_request)
  handle_prediction_resolve id (some (result, evidence_url)) e =
      if result == "" then (e, bad_request) else elim (get_prediction id e.market) [
        | none ↦ (e, not_found)
        | some p ↦
            if not (is_open p.status)
            then (e, bad_request)
            else if not (validate_prediction_option env p.options result)
            then (e, bad_request)
            else let r : PredictionResolution = record {
              id = "";
              prediction_id = id;
              resolver_id = "";
              result = result;
              evidence_url = evidence_url;
            } in
              let (e', sent) = publish_prediction_resolution r e in
              if sent then (reach_consensus id result e', ok) else (e', internal_error)
      ]

  -- After the appeal is published: two appellants overturn the result.
  unfoldable pub overturn : String → Exchange → Exchange
  overturn id e =
      if leb 2 (count_appeals id e.market)
      then record e { market = revert_prediction_to_open id e.market }
      else e

  unfoldable pub handle_prediction_appeal :
      String → Option (String × String) → Exchange → Exchange × ℕ
  handle_prediction_appeal id none e = (e, bad_request)
  handle_prediction_appeal id (some (reason, evidence_url)) e =
      if reason == "" then (e, bad_request) else elim (get_prediction id e.market) [
        | none ↦ (e, not_found)
        | some p ↦
            if not (is_pending p.status)
            then (e, bad_request)
            else let a : PredictionAppeal = record {
              id = "";
              prediction_id = id;
              appellant_id = peer_id;
              reason = reason;
              evidence_url = evidence_url;
            } in
              let (e', sent) = publish_prediction_appeal a e in
              if sent then (overturn id e', ok) else (e', internal_error)
      ]
