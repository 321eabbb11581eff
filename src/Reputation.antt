-- ===== src/Reputation.antt =====
-- Reputation: clawnet-cli/internal/store/reputation.go.
--
-- The score is a float64 that `RecalcReputation` computes from four counts with whole coefficients,
-- so it is a whole number, exact in a float64; here it is an integer.
pub mod Score
pub mod Percentile
mod Examples
use claw_net.Base.{
  ℕ, ◌+◌, ◌*◌, ◌/◌, String, Bool, true, false, Option, none, some, List, [], ◌∷◌, map,
  if◌then◌else◌, ◌==◌, ◌&&◌, length, count, leb,
}
use claw_net.Base.Int.{ℤ, pos, ◌+ℤ◌, ◌-ℤ◌, ltb_ℤ}
use claw_net.Base.Table.{Table, find, insert}
use claw_net.Tasks.{Task, Status, approved, rejected}

-- `ReputationRecord`; the row's key is the peer id.
pub record ReputationRecord : Type 0 where
  pub score : ℤ
  pub tasks_completed : ℕ
  pub tasks_failed : ℕ
  pub contributions : ℕ
  pub knowledge_count : ℕ

unfoldable pub upsert_reputation :
    String → ReputationRecord → Table ReputationRecord → Table ReputationRecord
upsert_reputation peer r t = insert peer r t

-- `GetReputation`: an unknown peer has the score 50.
unfoldable pub get_reputation : String → Table ReputationRecord → ReputationRecord
get_reputation peer t = elim (find peer t) [
  | none ↦ record {
    score = pos 50;
    tasks_completed = 0;
    tasks_failed = 0;
    contributions = 0;
    knowledge_count = 0;
  }
  | some r ↦ r
]

unfoldable pub reputation_score : ℕ → ℕ → ℕ → ℕ → ℤ
reputation_score completed failed contributions knowledge =
    let score =
      pos 50
      +ℤ pos (completed * 5)
      -ℤ pos (failed * 3)
      +ℤ pos (contributions * 2)
      +ℤ pos knowledge in
    if ltb_ℤ score (pos 0) then pos 0 else score

abbrev pub is_approved : Status → Bool
is_approved approved = true
is_approved _ = false

abbrev pub is_rejected : Status → Bool
is_rejected rejected = true
is_rejected _ = false

-- The counts that `RecalcReputation` takes from the tables tasks, swarm_contributions and knowledge;
-- of the last two only the column author_id is read.
unfoldable pub recalc_record : String → Table Task → List String → List String → ReputationRecord
recalc_record peer tasks contributors writers =
    let completed = count (λ r. r.1.assigned_to == peer && is_approved r.1.status) tasks in
    let failed = count (λ r. r.1.assigned_to == peer && is_rejected r.1.status) tasks in
    let contributions = count (λ a. a == peer) contributors in
    let knowledge = count (λ a. a == peer) writers in
    record {
      score = reputation_score completed failed contributions knowledge;
      tasks_completed = completed;
      tasks_failed = failed;
      contributions = contributions;
      knowledge_count = knowledge;
    }

-- The score of a peer that has no row is NULL, and no score is less than NULL.
abbrev pub peers_below : Option ReputationRecord → Table ReputationRecord → ℕ
peers_below none t = 0
peers_below (some own) t = count (λ r. ltb_ℤ r.1.score own.score) t

unfoldable pub reputation_percentile : String → Table ReputationRecord → ℕ
reputation_percentile peer t =
    if leb (length t) 1 then 100 else peers_below (find peer t) t * 100 / length t
