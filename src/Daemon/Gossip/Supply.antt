-- ===== src/Daemon/Gossip/Supply.antt =====
-- What messages and automatic approvals keep true of the ledger:
-- clawnet-cli/internal/daemon/phase2_gossip.go.
use claw_net.Base.{
  String, Bool, true, false, not, ◌&&◌, inl, inr, ◌≡◌, refl, arith, Bool-cases, Option-cases,
  if◌then◌else◌, ◌==◌,
}
use claw_net.Base.Int.{pos, ltb_ℤ}
use claw_net.Credits.{Ledger}
use claw_net.Tasks.{Task, is_submitted, approve_task, get_task}
use claw_net.Daemon.Node.{
  Node, Env, Message, task_msg, bid_msg, update_msg, submission_msg, audit_msg, recalc_reputation,
}
use claw_net.Daemon.Kept.{
  IsKept, republish-ledger, pay-Kept, unfreeze_reward-Kept, award_prestige-Kept,
}
use claw_net.Daemon.TaskApi.{credit_worker}
use claw_net.Daemon.Gossip.{pay_claimed, auto_approve_simple_task, receive_task_message}

-- Messages about tasks never touch the ledger.
pub receive_task_message-ledger :
    (env : Env) (sender : String) (m : Message) (n : Node)
    → (receive_task_message env sender m n).0.ledger ≡ n.ledger
unfolding receive_task_message
receive_task_message-ledger env sender (task_msg t) n = ground arith
receive_task_message-ledger env sender (bid_msg b) n = ground arith
receive_task_message-ledger env sender (update_msg t) n = ground arith
receive_task_message-ledger env sender (submission_msg s) n = ground arith
receive_task_message-ledger env sender (audit_msg txn a) n = refl

module _ (env : Env) (P : Ledger → Type 0) (kept : IsKept env.floats P) where
  credit_worker-Kept : (t : Task) (n : Node) → P n.ledger → P (credit_worker env t n).ledger
  unfolding credit_worker recalc_reputation
  credit_worker-Kept t n p =
      award_prestige-Kept env P kept _ _ _ (recalc_reputation t.assigned_to n) p

  credit_if-Kept :
      (b : Bool) (t : Task) (n : Node)
      → P n.ledger
      → P (if b then credit_worker env t n else n).ledger
  credit_if-Kept true t n p = credit_worker-Kept t n p
  credit_if-Kept false t n p = p

  pay_claimed-Kept :
      (id : String) (t : Task) (n : Node) → P n.ledger → P (pay_claimed env id t n).ledger
  unfolding pay_claimed
  pay_claimed-Kept id t n p =
      credit_if-Kept (not (t.assigned_to == "") && not (t.assigned_to == t.author_id)) t _
        (elim (Bool-cases (
          ltb_ℤ (pos 0) t.reward
          && (not (t.assigned_to == "") && not (t.assigned_to == t.author_id)))) [
            | inl e ↦ rw e (
                pay-Kept env P kept _ _ t.reward _ _ _ (ground arith)
                  (unfreeze_reward-Kept env P kept t.author_id t.reward n p))
            | inr e ↦ rw e p
          ])

  pub auto_approve_simple_task-Kept :
      (id : String) (n : Node) → P n.ledger → P (auto_approve_simple_task env id n).ledger
  unfolding auto_approve_simple_task
  auto_approve_simple_task-Kept id n p = elim (Option-cases (get_task id n.store)) [
    | inl e ↦ rw (e, auto_approve_simple_task) p
    | inr (t, e) ↦
        rw (e, auto_approve_simple_task)
          (elim (Bool-cases
            (t.mode == "simple" && is_submitted t.status && t.author_id == env.self)) [
              | inr away ↦ rw away p
              | inl mine ↦ rw mine (elim (Option-cases (approve_task id n.store).1) [
                | inr (x, failed) ↦ rw failed p
                | inl done ↦ rw (done, republish-ledger env id _) (pay_claimed-Kept id t _ p)
              ])
            ])
  ]
