-- ===== src/Predictions/Market/Stakes.antt =====
-- The total stake of a prediction and its bets: `InsertPredictionBet` of
-- clawnet-cli/internal/store/predictions.go.
use claw_net.Base.{
  String, true, false, none, some, ◌≡◌, ◌∙◌, refl, sym, ap, arith, inl, inr, ◌⊎◌, if◌then◌else◌,
  ◌==◌, Bool-cases, Option-cases,
}
use claw_net.Base.Int.{ℤ, pos, ◌+ℤ◌, int_laws, +ℤ_zero}
use claw_net.Base.Table.{Table, find, insert, contains, update, sum, weight, sum-insert}
use claw_net.Base.Rows.{change_row, find-update}
use claw_net.Credits.{constraint_failed}
use claw_net.Predictions.{PredictionBet}
use claw_net.Predictions.Market.{Market, Prediction, insert_prediction_bet}

-- What the bets on a prediction stake together.
abbrev pub stake_on : String → PredictionBet → ℤ
stake_on id b = if b.prediction_id == id then b.stake else pos 0

abbrev pub staked : String → Market → ℤ
staked id s = sum (stake_on id) s.bets

-- Every prediction's total is the sum of the stakes on it.
abbrev pub StakesMatch : Market → Type 0
StakesMatch s =
    (id : String) (p : Prediction) → find id s.predictions ≡ some p → p.total_stake ≡ staked id s

staked-new :
    (id : String) (b : PredictionBet) (t : Table PredictionBet)
    → find b.id t ≡ none
    → sum (stake_on id) (insert b.id b t) ≡ sum (stake_on id) t +ℤ stake_on id b
staked-new id b t e =
    let r = sum-insert (stake_on id) b.id b t in
    let q : weight (stake_on id) (find b.id t) ≡ pos 0 = rw e refl in grind (int_laws, r, q)

total_after :
    (b : PredictionBet) (t : Table Prediction) (id : String) (p : Prediction)
    → find id (update b.prediction_id (λ p. record p { total_stake = p.total_stake +ℤ b.stake }) t)
      ≡ some p
    → (q : Prediction) × (find id t ≡ some q) × (p.total_stake ≡ q.total_stake +ℤ stake_on id b)
total_after b t id p h =
    split (sym (find-update b.prediction_id id more t) ∙ h) (Option-cases (find id t))
      (Bool-cases (b.prediction_id == id))
  where
    more : Prediction → Prediction
    more p = record p { total_stake = p.total_stake +ℤ b.stake }

    split :
        (if b.prediction_id == id then change_row more (find id t) else find id t) ≡ some p
        → (find id t ≡ none) ⊎ ((q : Prediction) × (find id t ≡ some q))
        → (b.prediction_id == id ≡ true) ⊎ (b.prediction_id == id ≡ false)
        → (q : Prediction) × (find id t ≡ some q) × (p.total_stake ≡ q.total_stake +ℤ stake_on id b)
    split e (inl n) (inl s) = absurd (ground (arith, e, n, s))
    split e (inl n) (inr s) = absurd (ground (arith, e, n, s))
    split e (inr (q, n)) (inl s) =
        let k : more q ≡ p = ground (arith, e, n, s) in
        (q, n, rw s (sym (ap (λ (r : Prediction). r.total_stake) k)))
    split e (inr (q, n)) (inr s) =
        let k : q ≡ p = ground (arith, e, n, s) in
        (q, n, rw s (sym (ap (λ (r : Prediction). r.total_stake) k) ∙ sym (+ℤ_zero q.total_stake)))

abbrev with_bet : PredictionBet → Market → Market
with_bet b s = record s {
  bets = insert b.id b s.bets;
  predictions =
      update b.prediction_id (λ p. record p { total_stake = p.total_stake +ℤ b.stake })
        s.predictions;
}

with_bet-match :
    (b : PredictionBet) (s : Market)
    → find b.id s.bets ≡ none
    → StakesMatch s
    → StakesMatch (with_bet b s)
with_bet-match b s new h id p k =
    let (q, found_q, total) = total_after b s.predictions id p k in
    rw (total, h id q found_q, staked-new id b s.bets new) refl

-- A bet under a new id keeps every prediction's total the sum of the stakes on it; a bet on a prediction that is not stored
-- is refused and changes nothing.
pub new_bet_keeps_totals :
    (b : PredictionBet) (s : Market)
    → find b.id s.bets ≡ none
    → StakesMatch s
    → StakesMatch (insert_prediction_bet b s).0
      × (find b.prediction_id s.predictions ≡ none
          → insert_prediction_bet b s ≡ (s, some constraint_failed))
unfolding insert_prediction_bet
new_bet_keeps_totals b s new h = (
  elim (Option-cases (find b.prediction_id s.predictions)) [
    | inl e ↦ rw (insert_prediction_bet, contains, new, e) h
    | inr (q, e) ↦ rw (insert_prediction_bet, contains, new, e) (with_bet-match b s new h)
  ],
  λ e. rw (insert_prediction_bet, contains, new, e) refl,
)
