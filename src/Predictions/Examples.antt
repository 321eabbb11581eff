-- ===== src/Predictions/Examples.antt =====
-- A settlement on small data.
use claw_net.Base.{String, List, [], ◌∷◌, ◌≡◌, refl, arith, All}
use claw_net.Base.Int.{ℤ, pos, ◌+ℤ◌, ◌-ℤ◌, ◌*ℤ◌, ◌≤ℤ◌, quot, wrap64}
use claw_net.Predictions.{PredictionBet, pools, profit, profits, settle_prediction}
use claw_net.Predictions.Payouts.{total_profit, settle_prediction_fits}

abbrev bet : String → String → ℤ → PredictionBet
bet who what stake = record {
  id = who;
  prediction_id = "p";
  bettor_id = who;
  option = what;
  stake = stake;
}

abbrev three_bets : List PredictionBet
three_bets = bet "ann" "yes" (pos 100) ∷ bet "bob" "no" (pos 70) ∷ bet "cyd" "yes" (pos 50) ∷ []

shared_out : settle_prediction "yes" three_bets ≡ ("ann", pos 46) ∷ ("cyd", pos 23) ∷ []
unfolding settle_prediction pools profits profit quot wrap64 ◌+ℤ◌ ◌-ℤ◌ ◌*ℤ◌
shared_out = refl

settle_prediction_fits_example :
    let ps = settle_prediction "yes" three_bets in
    All (λ p. pos 0 ≤ℤ p.1) ps × (total_profit ps +ℤ pos 150 ≤ℤ pos 220)
settle_prediction_fits_example =
    settle_prediction_fits "yes" three_bets (omega arith, (omega arith, (omega arith, tt)))
      (omega arith)
