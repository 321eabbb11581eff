-- ===== src/Predictions.antt =====
-- The settlement of a prediction: `SettlePrediction` of
-- clawnet-cli/internal/store/predictions.go, with int64 arithmetic that wraps. The bets are what
-- `ListPredictionBets` reads for one prediction.
pub mod Payouts
pub mod Market
mod Examples
use claw_net.Base.{String, Bool, true, false, ◌||◌, List, [], ◌∷◌, if◌then◌else◌, ◌==◌}
use claw_net.Base.Int.{ℤ, pos, ◌+ℤ◌, ◌-ℤ◌, ◌*ℤ◌, eqb_ℤ, quot, wrap64}

-- `PredictionBet`; BettorName and Reasoning are for display.
pub record PredictionBet : Type 0 where
  pub id : String
  pub prediction_id : String
  pub bettor_id : String
  pub option : String
  pub stake : ℤ

-- The loop that adds up the pools: `total` and `winner` are its variables.
unfoldable pub pools : String → ℤ → ℤ → List PredictionBet → ℤ × ℤ
pools result total winner [] = (total, winner)
pools result total winner (b ∷ bs) =
    pools result (wrap64 (total +ℤ b.stake))
      (if b.option == result then wrap64 (winner +ℤ b.stake) else winner) bs

-- payout - b.Stake, with payout := b.Stake * totalPool / winnerPool
unfoldable pub profit : ℤ → ℤ → ℤ → ℤ
profit total winner stake = wrap64 (quot (wrap64 (stake *ℤ total)) winner -ℤ stake)

-- The loop that makes the settlements: the winners with their profits.
unfoldable pub profits : String → ℤ → ℤ → List PredictionBet → List (String × ℤ)
profits result total winner [] = []
profits result total winner (b ∷ bs) =
    let rest = profits result total winner bs in
    if b.option == result then (b.bettor_id, profit total winner b.stake) ∷ rest else rest

unfoldable pub settle_prediction : String → List PredictionBet → List (String × ℤ)
settle_prediction result bets =
    let (total, winner) = pools result (pos 0) (pos 0) bets in
    if eqb_ℤ winner (pos 0) || eqb_ℤ total (pos 0) then [] else profits result total winner bets
