-- ===== src/Daemon/Market/Examples.antt =====
-- A small prediction market.
use Prim.Native.String.{◌++◌, count}
use text.Mathlib.TextLemmas.{length-append}
use claw_net.Daemon.Market.Settlement.{settle_expired}
use claw_net.Base.{
  ℕ, zero, suc, String, true, none, some, List, [], ◌∷◌, ◌≡◌, ◌∙◌, refl, sym, ap, arith, Bool-cases,
  ◌==◌, inl, inr, read_all,
}
use claw_net.Base.Int.{ℤ, pos, ◌+ℤ◌, ◌-ℤ◌, ◌*ℤ◌, quot, wrap64, int_laws}
use claw_net.Base.Table.{find, sum}
use claw_net.Credits.Supply.{supply}
use claw_net.Predictions.{PredictionBet, pools, profit, profits, settle_prediction}
use claw_net.Predictions.Market.{
  Market, Prediction, open_, pending, PredictionResolution, list_expired_pending_predictions,
  list_prediction_bets, insert_prediction_bet,
}
use claw_net.Predictions.Market.Stakes.{StakesMatch, new_bet_keeps_totals}
use claw_net.Credits.{constraint_failed}
use claw_net.Daemon.Examples.{env, node, offered}
use claw_net.Daemon.Market.{Exchange, MarketEnv, handle_prediction_resolve}
use claw_net.Daemon.Market.NewIds.{UuidsDiffer}
use claw_net.Daemon.Market.Minting.{ticks, minted_at, settlement_repeats}
use claw_net.Daemon.Market.Consensus.{NeedsThree, handle_prediction_resolve-NeedsThree}

-- Uuids of growing length.
strokes : ℕ → String
strokes zero = ""
strokes (suc k) = "u" ++ strokes k

count-strokes : (k : ℕ) → count (strokes k) ≡ k
unfolding strokes
count-strokes zero = refl
count-strokes (suc k) = length-append "u" (strokes k) ∙ omega (arith, count-strokes k)

abbrev market_env : MarketEnv
market_env = record {
  env = record env { uuid = strokes; unmarshal = λ t. some ("yes" ∷ "no" ∷ []) };
  carries = λ m. true;
  deadline = "2026-01-02T00:00:00Z";
  now_sql = "2026-01-03 00:00:00";
}

uuids_differ : UuidsDiffer market_env.env
uuids_differ j k e = sym (count-strokes j) ∙ ap count e ∙ count-strokes k

abbrev bet : String → String → ℤ → PredictionBet
bet who what stake = record {
  id = who;
  prediction_id = "p";
  bettor_id = who;
  option = what;
  stake = stake;
}

abbrev rain : Prediction
rain = record {
  id = "p";
  creator_id = "dan";
  question = "Will it rain?";
  options = "[]";
  category = "custom";
  resolution_date = "2026-01-01";
  resolution_source = "";
  status = pending;
  result = "yes";
  total_stake = pos 220;
  appeal_deadline = "2026-01-02T00:00:00Z";
}

abbrev rain_market : Prediction → List (String × PredictionResolution) → Market
rain_market p rs = record {
  predictions = ("p", p) ∷ [];
  bets =
      ("b1", bet "ann" "yes" (pos 100))
      ∷ ("b2", bet "bob" "no" (pos 70))
      ∷ ("b3", bet "cyd" "yes" (pos 50))
      ∷ [];
  resolutions = rs;
  appeals = [];
}

abbrev exchange : Market → Exchange
exchange s = record { node = node offered; market = s; sent = [] }

-- The deadline is compared as a text: its T is above the space of SQL's times.
late_by_a_day :
    list_expired_pending_predictions "2026-01-02 23:59:59" (rain_market rain []) ≡ some []
unfolding list_expired_pending_predictions read_all
late_by_a_day = refl

-- A total of a million cannot be read, and then nothing is settled.
a_million :
    settle_expired market_env
      (exchange (rain_market (record rain { total_stake = pos 1000000 }) []))
    ≡ exchange (rain_market (record rain { total_stake = pos 1000000 }) [])
unfolding settle_expired list_expired_pending_predictions read_all
a_million = refl

abbrev times : List String
times = "2026-01-03 00:00:00" ∷ "2026-01-03 00:05:00" ∷ []

-- 46 and 23 Shell are made at each tick.
made_twice : minted_at times (rain_market rain []) ≡ pos 138
unfolding read_all list_expired_pending_predictions list_prediction_bets settle_prediction pools
    profits profit quot wrap64 ◌+ℤ◌ ◌-ℤ◌ ◌*ℤ◌
made_twice = refl

settlement_repeats_example :
    let e = exchange (rain_market rain []) in
    ((ticks market_env times e).market ≡ rain_market rain [])
    × (supply (ticks market_env times e).node.ledger
        ≡ supply (node offered).ledger +ℤ minted_at times (rain_market rain []))
unfolding find
settlement_repeats_example =
    settlement_repeats market_env times (exchange (rain_market rain [])) uuids_differ (λ k h. refl)

abbrev open_rain : Prediction
open_rain = record rain { status = open_; result = ""; appeal_deadline = "" }

abbrev proposed : String → PredictionResolution
proposed peer = record {
  id = peer;
  prediction_id = "p";
  resolver_id = peer;
  result = "no";
  evidence_url = "";
}

abbrev two_proposals : Exchange
two_proposals =
    exchange (rain_market open_rain (("bob", proposed "bob") ∷ ("cyd", proposed "cyd") ∷ []))

handle_prediction_resolve-NeedsThree_example :
    NeedsThree market_env "p" two_proposals
      (handle_prediction_resolve market_env "p" (some ("no", "")) two_proposals).0
handle_prediction_resolve-NeedsThree_example =
    handle_prediction_resolve-NeedsThree market_env "p" (some ("no", "")) two_proposals

abbrev new_bet : PredictionBet
new_bet = record (bet "dan" "no" (pos 30)) { id = "b4" }

totals : StakesMatch (rain_market rain [])
unfolding find sum
totals id p h = elim (Bool-cases ("p" == id)) [
  | inl e ↦ let k : rain ≡ p = ground (arith, rw e at h) in rw (e, ← k) (omega int_laws)
  | inr e ↦ absurd (ground (arith, rw e at h))
]

new_bet_keeps_totals_example :
    StakesMatch (insert_prediction_bet new_bet (rain_market rain [])).0
    × (find "p" (rain_market rain []).predictions ≡ none
        → insert_prediction_bet new_bet (rain_market rain [])
          ≡ (rain_market rain [], some constraint_failed))
unfolding find
new_bet_keeps_totals_example = new_bet_keeps_totals new_bet (rain_market rain []) refl totals
