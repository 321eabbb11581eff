-- ===== src/Reputation/Examples.antt =====
-- Reputation on small data.
use claw_net.Base.{[], ◌∷◌, ◌≡◌, refl, ◌≤◌, ◌<◌, arith}
use claw_net.Base.Int.{ℤ, pos, ◌≤ℤ◌, ◌+ℤ◌}
use claw_net.Base.Table.{Table, find}
use claw_net.Reputation.{ReputationRecord, reputation_percentile, reputation_score}
use claw_net.Reputation.Percentile.{reputation_percentile_order}
use claw_net.Reputation.Score.{reputation_score_moves}

abbrev scored : ℤ → ReputationRecord
scored x = record {
  score = x;
  tasks_completed = 0;
  tasks_failed = 0;
  contributions = 0;
  knowledge_count = 0;
}

abbrev three : Table ReputationRecord
three = ("ann", scored (pos 55)) ∷ ("bob", scored (pos 50)) ∷ ("cyd", scored (pos 70)) ∷ []

three_percentile : reputation_percentile "ann" three ≡ 33
unfolding reputation_percentile find
three_percentile = refl

reputation_percentile_order_test :
    (reputation_percentile "ann" three ≤ reputation_percentile "cyd" three)
    × (reputation_percentile "cyd" three < 100)
unfolding find
reputation_percentile_order_test =
    reputation_percentile_order "ann" "cyd" three refl refl (omega arith) (omega arith)

reputation_score_moves_test :
    (pos 0 ≤ℤ reputation_score 1 40 0 0)
    × (reputation_score 1 40 0 0 ≤ℤ reputation_score 2 40 0 0)
    × (reputation_score 2 40 0 0 ≤ℤ reputation_score 1 40 0 0 +ℤ pos 5)
    × (reputation_score 1 41 0 0 ≤ℤ reputation_score 1 40 0 0)
    × (reputation_score 1 40 0 0 ≤ℤ reputation_score 1 41 0 0 +ℤ pos 3)
    × (reputation_score 1 40 0 0 ≤ℤ reputation_score 1 40 1 0)
    × (reputation_score 1 40 0 0 ≤ℤ reputation_score 1 40 0 1)
reputation_score_moves_test = reputation_score_moves 1 40 0 0
