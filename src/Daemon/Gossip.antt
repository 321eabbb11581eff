-- ===== src/Daemon/Gossip.antt =====
-- What a node does with messages on the topics for tasks and credit audits: `handleTaskSub`,
-- `autoApproveSimpleTask` and `handleCreditAuditSub` of
-- clawnet-cli/internal/daemon/phase2_gossip.go.
--
-- A step takes one message that has arrived and was decoded; a message that does not decode, or that
-- the node sent itself, is skipped before. The automatic approval, which the source starts as a
-- goroutine, is a step of its own.
pub mod Replays
pub mod Supply
use claw_net.Base.{
  ℕ, String, Bool, true, false, not, ◌&&◌, ◌||◌, Option, none, some, List, [], ◌∷◌, if◌then◌else◌,
  ◌==◌,
}
use Prim.Native.String.{◌++◌}
use claw_net.Base.Int.{ℤ, pos, ltb_ℤ}
use claw_net.Base.Table.{find}
use claw_net.Float.{Float64}
use claw_net.Credits.{AuditRecord, log_credit_audit, ensure_credit_account, add_credits}
use claw_net.Tasks.{
  Task, is_submitted, TaskBid, TaskSubmission, TaskStore, insert_task, insert_task_bid,
  approve_task, get_task,
}
use claw_net.Tasks.Submissions.{update_bid_close, insert_task_submission}
use claw_net.Daemon.Node.{
  Node, Env, Message, task_msg, bid_msg, update_msg, submission_msg, audit_msg, pay,
  unfreeze_reward, republish,
}
use claw_net.Daemon.TaskApi.{credit_worker}

-- `TutorialTaskID`
abbrev pub tutorial_task_id : String
tutorial_task_id = "tutorial-onboarding"

-- The peer that signed a message must be the one it speaks for, if it speaks for one.
unfoldable pub gossip_author_ok : String → String → Bool
gossip_author_ok sender claimed = claimed == "" || sender == claimed

module _ (env : Env) where
  open env use {self, now}

  -- The payment of an automatic approval, and the worker's reputation and prestige.
  unfoldable pub pay_claimed : String → Task → Node → Node
  pay_claimed id t n =
      let other = not (t.assigned_to == "") && not (t.assigned_to == t.author_id) in
      let n =
        if ltb_ℤ (pos 0) t.reward && other
        then pay env t.author_id t.assigned_to t.reward "task_reward" id
            (unfreeze_reward t.author_id t.reward n)
        else n in
      if other then credit_worker env t n else n

  unfoldable pub auto_approve_simple_task : String → Node → Node
  auto_approve_simple_task id n = elim (get_task id n.store) [
    | none ↦ n
    | some t ↦
        if t.mode == "simple" && is_submitted t.status && t.author_id == self
        then (let (s, e) = approve_task id n.store in
            let n = record n { store = s } in
            elim e [ some _ ↦ n | none ↦ republish env id (pay_claimed id t n) ])
        else n
  ]

  -- Whether an update makes the author's node start the automatic approval.
  unfoldable pub wants_approval : Task → Bool
  wants_approval t =
      t.mode == "simple"
      && is_submitted t.status
      && t.author_id == self
      && not (t.assigned_to == "")
      && not (t.assigned_to == t.author_id)

  -- One round of the loop of `handleTaskSub`, with whether an automatic approval is started.
  unfoldable pub receive_task_message : String → Message → Node → Node × Bool
  receive_task_message sender (task_msg t) n =
      if gossip_author_ok sender t.author_id && not (t.id == tutorial_task_id)
      then (record n { store = insert_task now t n.store }, false)
      else (n, false)
  receive_task_message sender (bid_msg b) n =
      if gossip_author_ok sender b.bidder_id
      then (record n { store = update_bid_close b.task_id (insert_task_bid b n.store).0 }, false)
      else (n, false)
  receive_task_message sender (update_msg t) n =
      if (gossip_author_ok sender t.author_id || gossip_author_ok sender t.assigned_to)
        && not (t.id == tutorial_task_id)
      then (record n { store = insert_task now t n.store }, wants_approval t)
      else (n, false)
  receive_task_message sender (submission_msg sub) n =
      if gossip_author_ok sender sub.worker_id
      then (record n { store = (insert_task_submission sub n.store).0 }, false)
      else (n, false)
  receive_task_message sender (audit_msg txn entry) n = (n, false)

  -- One round of the loop of `handleCreditAuditSub`; `rejected` is whether the check of a signature
  -- was reached and failed.
  unfoldable pub receive_credit_audit : Bool → String → AuditRecord → Node → Node
  receive_credit_audit rejected txn a n =
      if rejected
      then n
      else let l =
          log_credit_audit txn a.task_id a.from_peer a.to_peer a.amount a.reason a.event_time
            n.ledger in
        if a.to_peer == self && ltb_ℤ (pos 0) a.amount
        then record n {
          ledger =
              (add_credits (txn ++ "_recv") self a.amount ("received_" ++ a.reason)
                (ensure_credit_account self (pos 0) l)).0;
        }
        else record n { ledger = l }
