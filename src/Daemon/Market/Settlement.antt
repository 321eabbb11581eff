-- ===== src/Daemon/Market/Settlement.antt =====
-- The settlement of predictions, and what arrives from other peers: `settlePrediction` of
-- clawnet-cli/internal/daemon/phase2_api.go, `predictionSettlementLoop` and `handlePredictionSub` of
-- clawnet-cli/internal/daemon/phase2_gossip.go.
use claw_net.Base.{suc, String, Bool, Option, none, some, List, [], ◌∷◌, if◌then◌else◌, ◌==◌}
use claw_net.Base.Int.{ℤ, pos, ltb_ℤ}
use claw_net.Credits.{unfreeze_credits, add_credits}
use claw_net.Predictions.{PredictionBet, settle_prediction as settlement_of}
use claw_net.Predictions.Market.{
  Prediction, insert_prediction, insert_prediction_bet, list_prediction_bets,
  insert_prediction_resolution, insert_prediction_appeal, list_expired_pending_predictions,
}
use claw_net.Daemon.Node.{Node, pay, publish_credit_audit}
use claw_net.Daemon.Gossip.{gossip_author_ok}
use claw_net.Daemon.Market.{
  MarketEnv, Exchange, MarketMessage, prediction_msg, bet_msg, resolution_msg, appeal_msg,
}

module _ (m : MarketEnv) where
  open m use {env, now_sql}

  -- The three loops of `settlePrediction`.
  unfoldable pub unfreeze_bets : List PredictionBet → Node → Node
  unfreeze_bets [] n = n
  unfreeze_bets (b ∷ bs) n =
      unfreeze_bets bs (record n { ledger = unfreeze_credits b.bettor_id b.stake n.ledger })

  unfoldable pub charge_losers : String → String → List PredictionBet → Node → Node
  charge_losers id result [] n = n
  charge_losers id result (b ∷ bs) n = charge_losers id result bs (
      if b.option == result
      then n
      else pay env b.bettor_id "prediction_pool" b.stake "prediction_loss" id n)

  -- AddCredits, whose error is dropped, and the audit message.
  unfoldable pub pay_winner : String → String → ℤ → Node → Node
  pay_winner id peer profit n =
      let txn = env.uuid n.uuids in
      publish_credit_audit env txn id "prediction_pool" peer profit "prediction_win" (record n {
        ledger = (add_credits txn peer profit "prediction_win" n.ledger).0;
        uuids = suc n.uuids;
      })

  unfoldable pub pay_winners : String → List (String × ℤ) → Node → Node
  pay_winners id [] n = n
  pay_winners id ((peer, profit) ∷ ps) n =
      pay_winners id ps (if ltb_ℤ (pos 0) profit then pay_winner id peer profit n else n)

  -- With the settlements and the bets, which the source reads once each.
  unfoldable pub settle_bets : String → String → List PredictionBet → Node → Node
  settle_bets id result bets n =
      pay_winners id (settlement_of result bets)
        (charge_losers id result bets (unfreeze_bets bets n))

  -- Where the bets cannot be read, SettlePrediction fails and nothing happens.
  unfoldable pub settle_prediction : String → String → Exchange → Exchange
  settle_prediction id result e = elim (list_prediction_bets id e.market) [
    | none ↦ e
    | some bets ↦ record e { node = settle_bets id result bets e.node }
  ]

  unfoldable pub settle_each : List Prediction → Exchange → Exchange
  settle_each [] e = e
  settle_each (p ∷ ps) e = settle_each ps (settle_prediction p.id p.result e)

  -- One tick of `predictionSettlementLoop`.
  unfoldable pub settle_expired : Exchange → Exchange
  settle_expired e = elim (list_expired_pending_predictions now_sql e.market) [
    | none ↦ e
    | some ps ↦ settle_each ps e
  ]

  -- What `handlePredictionSub` does with a message that another peer's node sent: `sender` signed it, and
  -- it is `none` where it does not decode.
  unfoldable pub receive_market_message : Bool → String → Option MarketMessage → Exchange → Exchange
  receive_market_message from_self sender msg e = if from_self then e else elim msg [
    | none ↦ e
    | some (prediction_msg p) ↦
        if gossip_author_ok sender p.creator_id
        then record e { market = insert_prediction p e.market }
        else e
    | some (bet_msg b) ↦
        if gossip_author_ok sender b.bettor_id
        then record e { market = (insert_prediction_bet b e.market).0 }
        else e
    | some (resolution_msg r) ↦ record e { market = (insert_prediction_resolution r e.market).0 }
    | some (appeal_msg a) ↦ record e { market = (insert_prediction_appeal a e.market).0 }
  ]
