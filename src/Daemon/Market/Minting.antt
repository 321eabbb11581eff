-- ===== src/Daemon/Market/Minting.antt =====
-- What the settlement of predictions does to the supply of Shell: `settlePrediction` of
-- clawnet-cli/internal/daemon/phase2_api.go.
use claw_net.Base.{
  ℕ, suc, ◌≤◌, String, List, [], ◌∷◌, ◌≡◌, ◌≢◌, ◌∙◌, refl, sym, ap, arith, inl, inr, if◌then◌else◌,
  ◌==◌, Bool-cases, or_empty, Option, none, some, Option-cases,
}
use claw_net.Base.Int.{ℤ, pos, ◌+ℤ◌, ltb_ℤ, int_laws, +ℤ_zero}
use claw_net.Base.Table.{find}
use claw_net.Credits.{Ledger, add_credits, unfreeze_credits}
use claw_net.Credits.Supply.{supply, transfer_credits-supply, unfreeze_credits-supply}
use claw_net.Predictions.{PredictionBet, settle_prediction as settlement_of}
use claw_net.Predictions.Market.{
  Market, Prediction, list_prediction_bets, list_expired_pending_predictions,
}
use claw_net.Daemon.Node.{Node, pay}
use claw_net.Daemon.Kept.{pay-ledger, publish_credit_audit-ledger}
use claw_net.Daemon.Market.{Exchange, MarketEnv}
use claw_net.Daemon.Market.NewIds.{
  UuidsDiffer, IdsAreNew, transfer_credits-others, add_credits-others, add_credits-new,
  publish_credit_audit-uuids, pay-uuids,
}
use claw_net.Daemon.Market.Settlement.{
  unfreeze_bets, charge_losers, pay_winner, pay_winners, settle_prediction, settle_each,
  settle_expired, settle_bets,
}

-- What winners get: the profits that are positive.
abbrev pub minted : List (String × ℤ) → ℤ
minted [] = pos 0
minted ((peer, profit) ∷ ps) = (if ltb_ℤ (pos 0) profit then profit else pos 0) +ℤ minted ps

-- What the settlement of a prediction with these bets makes: nothing where they cannot be read.
abbrev pub minted_for : String → Option (List PredictionBet) → ℤ
minted_for result none = pos 0
minted_for result (some bets) = minted (settlement_of result bets)

-- What a settlement of these predictions makes: their positive profits.
abbrev pub minted_by : List Prediction → Market → ℤ
minted_by [] s = pos 0
minted_by (p ∷ ps) s = minted_for p.result (list_prediction_bets p.id s) +ℤ minted_by ps s

settle_prediction-market :
    (m : MarketEnv) (id result : String) (e : Exchange)
    → (settle_prediction m id result e).market ≡ e.market
unfolding settle_prediction
settle_prediction-market m id result e = elim (Option-cases (list_prediction_bets id e.market)) [
  | inl unread ↦ rw (settle_prediction, unread) refl
  | inr (bets, read) ↦ rw (settle_prediction, read) refl
]

module _ (m : MarketEnv) (differ : UuidsDiffer m.env) where
  open m use {env}

  unused : (j k : ℕ) → suc j ≤ k → env.uuid j ≢ env.uuid k
  unused j k h e = let q : j ≡ k = differ j k e in absurd (omega arith)

  -- A step that makes `x` Shell, and leaves new ids new.
  abbrev Makes : ℤ → Node → Node → Type 0
  Makes x n n' = IdsAreNew env n → (supply n'.ledger ≡ supply n.ledger +ℤ x) × IdsAreNew env n'

  both : (x y z : ℤ) (a b c : Node) → x +ℤ y ≡ z → Makes x a b → Makes y b c → Makes z a c
  both x y z a b c e f g new =
      let p = f new in let q = g p.1 in (grind (int_laws, p.0, q.0, e), q.1)

  pay-Makes :
      (from to : String) (x : ℤ) (why ref : String) (n : Node)
      → Makes (pos 0) n (pay env from to x why ref n)
  pay-Makes from to x why ref n new = (
    ap supply (pay-ledger env from to x why ref n)
        ∙ transfer_credits-supply (env.uuid n.uuids) from to x why ref n.ledger
        ∙ sym (+ℤ_zero (supply n.ledger)),
    λ k h.
        let later : suc n.uuids ≤ k = rw (← pay-uuids env from to x why ref n) h in
        ap (λ (l : Ledger). find (env.uuid k) l.transactions) (pay-ledger env from to x why ref n)
        ∙ transfer_credits-others (env.uuid n.uuids) from to x why ref (env.uuid k) n.ledger
            (unused n.uuids k later)
        ∙ new k (omega arith),
  )

  pay_winner-Makes :
      (id peer : String) (profit : ℤ) (n : Node) → Makes profit n (pay_winner m id peer profit n)
  unfolding pay_winner
  pay_winner-Makes id peer profit n new = (
    ap supply (publish_credit_audit-ledger env _ _ _ _ _ _ _)
        ∙ add_credits-new (env.uuid n.uuids) peer profit "prediction_win" n.ledger
            (new n.uuids (omega arith)),
    λ k h.
        let later : suc n.uuids ≤ k =
          rw
            (← publish_credit_audit-uuids env (env.uuid n.uuids) id "prediction_pool" peer profit
              "prediction_win"
              (record n {
                ledger = (add_credits (env.uuid n.uuids) peer profit "prediction_win" n.ledger).0;
                uuids = suc n.uuids;
              }))
            h in
        ap (λ (l : Ledger). find (env.uuid k) l.transactions)
          (publish_credit_audit-ledger env _ _ _ _ _ _ _)
        ∙ add_credits-others (env.uuid n.uuids) peer profit "prediction_win" (env.uuid k) n.ledger
            (unused n.uuids k later)
        ∙ new k (omega arith),
  )

  stays : (n : Node) → Makes (pos 0) n n
  stays n new = (sym (+ℤ_zero (supply n.ledger)), new)

  unfreeze_bets-Makes :
      (bs : List PredictionBet) (n : Node) → Makes (pos 0) n (unfreeze_bets m bs n)
  unfolding unfreeze_bets unfreeze_credits
  unfreeze_bets-Makes [] n new = stays n new
  unfreeze_bets-Makes (b ∷ bs) n new =
      let n' : Node = record n { ledger = unfreeze_credits b.bettor_id b.stake n.ledger } in
      let r = unfreeze_bets-Makes bs n' new in
      (r.0 ∙ ap (λ x. x +ℤ pos 0) (unfreeze_credits-supply b.bettor_id b.stake n.ledger), r.1)

  charge_losers-Makes :
      (id result : String) (bs : List PredictionBet) (n : Node)
      → Makes (pos 0) n (charge_losers m id result bs n)
  unfolding charge_losers
  charge_losers-Makes id result [] n = stays n
  charge_losers-Makes id result (b ∷ bs) n = elim (Bool-cases (b.option == result)) [
    | inl e ↦ rw (charge_losers, e) (charge_losers-Makes id result bs n)
    | inr e ↦
        let n' = pay env b.bettor_id "prediction_pool" b.stake "prediction_loss" id n in
        rw (charge_losers, e)
          (both (pos 0) (pos 0) (pos 0) n n' (charge_losers m id result bs n') (omega int_laws)
            (pay-Makes b.bettor_id "prediction_pool" b.stake "prediction_loss" id n)
            (charge_losers-Makes id result bs n'))
  ]

  pay_winners-Makes :
      (id : String) (ps : List (String × ℤ)) (n : Node)
      → Makes (minted ps) n (pay_winners m id ps n)
  unfolding pay_winners
  pay_winners-Makes id [] n = stays n
  pay_winners-Makes id ((peer, profit) ∷ ps) n = elim (Bool-cases (ltb_ℤ (pos 0) profit)) [
    | inl e ↦
        let n' = pay_winner m id peer profit n in
        rw (pay_winners, e)
          (both profit (minted ps) (profit +ℤ minted ps) n n' (pay_winners m id ps n') refl
            (pay_winner-Makes id peer profit n) (pay_winners-Makes id ps n'))
    | inr e ↦
        rw (pay_winners, e)
          (both (pos 0) (minted ps) (pos 0 +ℤ minted ps) n n (pay_winners m id ps n) refl (stays n)
            (pay_winners-Makes id ps n))
  ]

  settle_bets-Makes :
      (id result : String) (bets : List PredictionBet) (n : Node)
      → Makes (minted (settlement_of result bets)) n (settle_bets m id result bets n)
  unfolding settle_bets
  settle_bets-Makes id result bets n =
      let a = unfreeze_bets m bets n in
      let b = charge_losers m id result bets a in
      let made = minted (settlement_of result bets) in
      both (pos 0) made made n b (pay_winners m id (settlement_of result bets) b) (omega int_laws)
        (both (pos 0) (pos 0) (pos 0) n a b (omega int_laws) (unfreeze_bets-Makes bets n)
          (charge_losers-Makes id result bets a))
        (pay_winners-Makes id (settlement_of result bets) b)

  settle_prediction-Makes :
      (id result : String) (e : Exchange)
      → Makes
          (minted_for result (list_prediction_bets id e.market))
          e.node
          (settle_prediction m id result e).node
  unfolding settle_prediction
  settle_prediction-Makes id result e = elim (Option-cases (list_prediction_bets id e.market)) [
    | inl unread ↦ rw (settle_prediction, unread) (stays e.node)
    | inr (bets, read) ↦ rw (settle_prediction, read) (settle_bets-Makes id result bets e.node)
  ]

  settle_each-Makes :
      (ps : List Prediction) (e : Exchange)
      → Makes (minted_by ps e.market) e.node (settle_each m ps e).node
  unfolding settle_each
  settle_each-Makes [] e = stays e.node
  settle_each-Makes (p ∷ ps) e =
      let e' = settle_prediction m p.id p.result e in
      let same : e'.market ≡ e.market = settle_prediction-market m p.id p.result e in
      let rest : minted_by ps e'.market ≡ minted_by ps e.market = ap (minted_by ps) same in
      both (minted_for p.result (list_prediction_bets p.id e.market)) (minted_by ps e'.market)
        (minted_by (p ∷ ps) e.market) e.node e'.node (settle_each m ps e').node
        (ap (λ x. minted_for p.result (list_prediction_bets p.id e.market) +ℤ x) rest)
        (settle_prediction-Makes p.id p.result e) (settle_each-Makes ps e')

settle_each-market :
    (m : MarketEnv) (ps : List Prediction) (e : Exchange) → (settle_each m ps e).market ≡ e.market
unfolding settle_each
settle_each-market m [] e = refl
settle_each-market m (p ∷ ps) e =
    settle_each-market m ps (settle_prediction m p.id p.result e)
    ∙ settle_prediction-market m p.id p.result e

-- The ticks of the loop, at the times that are given.
unfoldable pub ticks : MarketEnv → List String → Exchange → Exchange
ticks m [] e = e
ticks m (now ∷ later) e = ticks m later (settle_expired (record m { now_sql = now }) e)

-- What ticks at these times make of a market.
abbrev pub minted_at : List String → Market → ℤ
minted_at [] s = pos 0
minted_at (now ∷ later) s =
    minted_by (or_empty (list_expired_pending_predictions now s)) s +ℤ minted_at later s

one_tick :
    (m : MarketEnv) (e : Exchange)
    → settle_expired m e
      ≡ settle_each m (or_empty (list_expired_pending_predictions m.now_sql e.market)) e
unfolding settle_expired settle_each
one_tick m e = elim (Option-cases (list_expired_pending_predictions m.now_sql e.market)) [
  | inl unread ↦ rw (settle_expired, unread) refl
  | inr (ps, read) ↦ rw (settle_expired, read) refl
]

-- On a node whose uuids differ and are new, ticks of the settlement loop at any times leave every prediction as it is, so
-- that it is settled again at each tick, and each time make Shell: the supply grows, at each of those times, by all positive
-- profits of the predictions that the query for pending ones returns at that time. It returns none at all where a total of
-- theirs cannot be read, being a million or more, and a prediction with a stake that cannot be read makes nothing.
pub settlement_repeats :
    (m : MarketEnv) (times : List String) (e : Exchange)
    → UuidsDiffer m.env
    → IdsAreNew m.env e.node
    → ((ticks m times e).market ≡ e.market)
      × (supply (ticks m times e).node.ledger ≡ supply e.node.ledger +ℤ minted_at times e.market)
unfolding ticks
settlement_repeats m [] e d new = (refl, sym (+ℤ_zero (supply e.node.ledger)))
settlement_repeats m (now ∷ times) e d new =
    let m' : MarketEnv = record m { now_sql = now } in
    let ps = or_empty (list_expired_pending_predictions now e.market) in
    let e' = settle_each m' ps e in
    let same : e'.market ≡ e.market = settle_each-market m' ps e in
    let made = settle_each-Makes m' d ps e new in
    let (market, grown) = settlement_repeats m times e' d made.1 in
    let rest : minted_at times e'.market ≡ minted_at times e.market = ap (minted_at times) same in
    rw (ticks, one_tick m' e) (market ∙ same, grind (int_laws, grown, made.0, rest))
