-- ===== src/Daemon/Milestones.antt =====
-- Milestones and achievements: `CheckAndCompleteMilestone` and `CheckAchievements` of
-- clawnet-cli/internal/daemon/intuitive.go, over clawnet-cli/internal/store/milestones.go and
-- clawnet-cli/internal/store/achievements.go. Titles, hints and icons are left out.
pub mod Funding
use claw_net.Base.{
  ℕ, suc, String, Bool, true, false, not, ◌&&◌, ◌||◌, Option, none, some, List, [], ◌∷◌,
  if◌then◌else◌, ◌==◌, count, leb,
}
use claw_net.Base.Int.{ℤ, pos, ltb_ℤ, leb_ℤ}
use claw_net.Base.Table.{Table}
use claw_net.Credits.{transfer_credits, get_credit_balance}
use claw_net.Tasks.{Status, approved, settled}
use claw_net.Tasks.Window.{minutes}
use claw_net.Reputation.{get_reputation}
use claw_net.Daemon.Node.{Node, Env, record_event}

-- Whether a key is in one of the two tables, and INSERT OR IGNORE.
unfoldable pub has_key : String → String → List (String × String) → Bool
has_key id peer [] = false
has_key id peer ((i, p) ∷ ks) = (i == id && p == peer) || has_key id peer ks

unfoldable pub add_key : String → String → List (String × String) → List (String × String)
unfolding has_key
add_key id peer ks = if has_key id peer ks then ks else (id, peer) ∷ ks

-- `MilestoneDef`: the id and the reward.
pub record MilestoneDef : Type 0 where
  pub id : String
  pub reward : ℤ

abbrev pub milestone_definitions : List MilestoneDef
milestone_definitions =
    record { id = "tutorial"; reward = pos 4200 }
    ∷ record { id = "first_knowledge"; reward = pos 100 }
    ∷ record { id = "first_topic"; reward = pos 200 }
    ∷ record { id = "first_task_claim"; reward = pos 300 }
    ∷ record { id = "first_task_publish"; reward = pos 500 }
    ∷ record { id = "first_swarm"; reward = pos 800 }
    ∷ []

unfoldable pub find_milestone : String → List MilestoneDef → Option MilestoneDef
find_milestone id [] = none
find_milestone id (m ∷ ms) = if m.id == id then some m else find_milestone id ms

unfoldable pub count_completed_tasks : String → Node → ℕ
count_completed_tasks peer n =
    count (λ r. r.1.assigned_to == peer && is_done r.1.status) n.store.tasks
  where
    is_done : Status → Bool
    is_done approved = true
    is_done settled = true
    is_done _ = false

unfoldable pub count_published_tasks : String → Node → ℕ
count_published_tasks peer n = count (λ r. r.1.author_id == peer) n.store.tasks

module _ (env : Env) where
  open env use {self, uuid, uptime, connected}

  -- The nine checks of `CheckAchievements`, in order.
  unfoldable pub achievement_checks : List (String × (Node → Bool))
  achievement_checks =
      ("first_blood", λ n. leb 1 (count_completed_tasks self n))
      ∷ ("patron", λ n. leb 1 (count_published_tasks self n))
      ∷ ("social_butterfly", λ n. leb 3 (count (λ a. a == self) n.contributors))
      ∷ ("deep_pockets", λ n. leb_ℤ (pos 10000) (get_credit_balance self n.ledger).balance)
      ∷ ("pearl_collector", λ n. leb_ℤ (pos 80) (get_reputation self n.reputation).score)
      ∷ ("marathon_runner", λ n. leb_ℤ (pos (minutes 10080)) uptime)
      ∷ ("knowledge_sharer", λ n. leb 5 (count (λ a. a == self) n.writers))
      ∷ ("team_player", λ n. leb 5 (count_completed_tasks self n))
      ∷ ("networker", λ n. leb 10 connected)
      ∷ []

  -- One round of its loop. Each of the nine has a definition, so the event is always recorded.
  unfoldable pub unlock_if : String → Bool → Node → Node
  unlock_if id reached n =
      if not (has_key id self n.achievements) && reached
      then record_event "achievement_unlocked" self id
          (record n { achievements = add_key id self n.achievements })
      else n

  unfoldable pub unlock_all : List (String × (Node → Bool)) → Node → Node
  unlock_all [] n = n
  unlock_all ((id, reached) ∷ checks) n = unlock_all checks (unlock_if id (reached n) n)

  unfoldable pub check_achievements : Node → Node
  check_achievements n = unlock_all achievement_checks n

  unfoldable pub pay_milestone : MilestoneDef → String → Node → Node
  pay_milestone def id n =
      if ltb_ℤ (pos 0) def.reward
      then record n {
        ledger =
            (transfer_credits (uuid n.uuids) "system_milestone" self def.reward "milestone_reward"
              id n.ledger).0;
        uuids = suc n.uuids;
      }
      else n

  -- The last part of `CheckAndCompleteMilestone`: what it does for a milestone that it knows.
  unfoldable pub complete_milestone : MilestoneDef → String → Node → Node × ℤ
  complete_milestone def id n =
      let n = record n { milestones = add_key id self n.milestones } in
      let n = pay_milestone def id n in
      let n = record_event "milestone_completed" self id n in (check_achievements n, def.reward)

  -- With the reward that is reported; the transfer's error is dropped.
  unfoldable pub check_and_complete_milestone : String → Node → Node × ℤ
  check_and_complete_milestone id n =
      if has_key id self n.milestones
      then (n, pos 0)
      else elim (find_milestone id milestone_definitions) [
        | none ↦ (n, pos 0)
        | some def ↦ if id == "tutorial" then (n, pos 0) else complete_milestone def id n
      ]
