-- ===== src/Daemon/Settler.antt =====
-- The settlement of tasks: clawnet-cli/internal/daemon/settler.go, without the timer that calls
-- `autoSettleTasks` and the line that it prints.
pub mod Supply
pub mod Payouts
pub mod Closing
pub mod Winner
use claw_net.Base.{
  ℕ, suc, ◌+◌, String, Bool, true, false, not, ◌&&◌, ◌||◌, Option, none, some, List, [], ◌∷◌,
  if◌then◌else◌, ◌==◌, count, ltb, ◌==ℕ◌, length,
}
use claw_net.Base.Int.{ℤ, pos, negsuc, quot, ltb_ℤ}
use claw_net.Float.{Float64}
use claw_net.Credits.{Ledger}
use claw_net.Reputation.{ReputationRecord, get_reputation}
use claw_net.Tasks.{
  Task, Status, approved, cancelled, settled, TaskSubmission, settle_task as settle_row,
}
use claw_net.Tasks.Submissions.{
  mark_winner, list_task_submissions, list_settleable_tasks, list_expired_no_submission_tasks,
}
use claw_net.Tasks.Window.{share, winner_share_pct, consolation_share_pct}
use claw_net.Base.Table.{Table}
use claw_net.Daemon.Node.{
  Node, Env, pay, unfreeze_reward, award_prestige, recalc_reputation, republish, prestige_of,
}

-- `pickWinnerByReputation`: the first of the submissions whose worker has the highest score; `best`
-- and its score are the loop's variables. GetReputation gives a record for every peer.
unfoldable pub pick_from :
    Table ReputationRecord → Option TaskSubmission → ℤ → List TaskSubmission → Option TaskSubmission
pick_from reps best best_rep [] = best
pick_from reps best best_rep (sub ∷ subs) =
    let score = (get_reputation sub.worker_id reps).score in
    let higher = ltb_ℤ best_rep score in
    pick_from reps (if higher then some sub else best) (if higher then score else best_rep) subs

unfoldable pub pick_winner_by_reputation :
    List TaskSubmission → Table ReputationRecord → Option TaskSubmission
unfolding pick_from
pick_winner_by_reputation subs reps = pick_from reps none (negsuc 0) subs

abbrev pub is_closed : Status → Bool
is_closed settled = true
is_closed approved = true
is_closed cancelled = true
is_closed _ = false

-- The submissions that share the consolation pool: neither the winner's nor the author's own.
abbrev pub is_consoled : Task → TaskSubmission → TaskSubmission → Bool
is_consoled t winner sub = not (sub.id == winner.id) && not (sub.worker_id == t.author_id)

unfoldable pub consolation_each : Task → List TaskSubmission → TaskSubmission → ℤ
consolation_each t subs winner =
    let recipients = count (is_consoled t winner) subs in
    if ltb 0 recipients then quot (share t.reward consolation_share_pct) (pos recipients) else pos 0

module _ (env : Env) where
  open env use {floats, now}

  -- One round of the loop that pays the submissions, with the two amounts.
  unfoldable pub pay_submission : Task → TaskSubmission → ℤ → ℤ → TaskSubmission → Node → Node
  pay_submission t winner winner_pay each sub n =
      if sub.worker_id == t.author_id
      then n
      else (if sub.id == winner.id
          then (if ltb_ℤ (pos 0) winner_pay
              then pay env t.author_id sub.worker_id winner_pay "task_reward" t.id n
              else n)
          else (if ltb_ℤ (pos 0) each
              then pay env t.author_id sub.worker_id each "task_consolation" t.id n
              else n))

  unfoldable pub pay_submissions : Task → TaskSubmission → ℤ → ℤ → List TaskSubmission → Node → Node
  pay_submissions t winner winner_pay each [] n = n
  pay_submissions t winner winner_pay each (sub ∷ subs) n =
      pay_submissions t winner winner_pay each subs (pay_submission t winner winner_pay each sub n)

  -- The distribution of the reward: all of it for a single submission, or the two shares.
  unfoldable pub distribute : Task → List TaskSubmission → TaskSubmission → Node → Node
  distribute t subs winner n =
      if length subs ==ℕ 1
      then (if ltb_ℤ (pos 0) t.reward && not (winner.worker_id == t.author_id)
          then pay env t.author_id winner.worker_id t.reward "task_reward" t.id n
          else n)
      else pay_submissions t winner (share t.reward winner_share_pct)
          (consolation_each t subs winner) subs n

  -- The small gain of the others, weighed by the author's prestige.
  unfoldable pub console_prestige :
      Task → TaskSubmission → Float64 → List TaskSubmission → Node → Node
  console_prestige t winner evaluator [] n = n
  console_prestige t winner evaluator (sub ∷ subs) n = console_prestige t winner evaluator subs (
      if is_consoled t winner sub
      then award_prestige env sub.worker_id (floats.decimal (pos 2) 0) evaluator n
      else n)

  unfoldable pub reward_prestige : Task → List TaskSubmission → TaskSubmission → Node → Node
  reward_prestige t subs winner n =
      if winner.worker_id == t.author_id
      then n
      else let n = recalc_reputation winner.worker_id n in
        let evaluator = prestige_of t.author_id n in
        console_prestige t winner evaluator subs
          (award_prestige env winner.worker_id (floats.decimal (pos 10) 0) evaluator n)

  unfoldable pub settle_task : Task → List TaskSubmission → TaskSubmission → Node → Node
  settle_task t subs winner n =
      if is_closed t.status
      then n
      else let n = record n { store = mark_winner winner.id n.store } in
        let n = unfreeze_reward t.author_id t.reward n in
        let n = distribute t subs winner n in
        let n = reward_prestige t subs winner n in
        let n = record n { store = (settle_row t.id n.store).0 } in republish env t.id n

  -- The body of the first loop of `autoSettleTasks`: the winner is picked, or else the first.
  unfoldable pub settle_with : Task → List TaskSubmission → Node → Node
  settle_with t [] n = n
  settle_with t (sub ∷ subs) n = elim (pick_winner_by_reputation (sub ∷ subs) n.reputation) [
    | none ↦ settle_task t (sub ∷ subs) sub n
    | some winner ↦ settle_task t (sub ∷ subs) winner n
  ]

  unfoldable pub settle_all : List Task → Node → Node
  settle_all [] n = n
  settle_all (t ∷ ts) n = settle_all ts (settle_with t (list_task_submissions t.id n.store) n)

  -- The second loop, over the tasks that nobody worked on.
  unfoldable pub refund_all : List Task → Node → Node
  refund_all [] n = n
  refund_all (t ∷ ts) n =
      let n = unfreeze_reward t.author_id t.reward n in
      refund_all ts (record n { store = (settle_row t.id n.store).0 })

  unfoldable pub refund_expired : Node → Node
  refund_expired n = elim (list_expired_no_submission_tasks now n.store) [
    | none ↦ n
    | some ts ↦ refund_all ts n
  ]

  unfoldable pub auto_settle_tasks : Node → Node
  auto_settle_tasks n = elim (list_settleable_tasks now n.store) [
    | none ↦ n
    | some ts ↦ refund_expired (settle_all ts n)
  ]
