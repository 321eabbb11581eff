-- ===== src/Daemon/TaskApi/Payment.antt =====
-- What an approval pays: `handleTaskApprove` of clawnet-cli/internal/daemon/phase2_api.go.
use claw_net.Base.{String, true, false, some, ◌≡◌, ◌≢◌, refl, ◌∙◌, ap, sym, arith, ◌==◌, text_ne}
use claw_net.Base.Int.{ℤ, pos, ◌+ℤ◌, ◌-ℤ◌, ◌≤ℤ◌, ◌<ℤ◌, ltb_ℤ, int_laws}
use claw_net.Base.Table.{find, contains, weight}
use claw_net.Credits.{Account, Ledger, transfer_credits, unfreeze_credits}
use claw_net.Credits.Balances.{
  balance_of, transfer_credits-receiver, unfreeze_credits-balance, unfreeze_credits-other,
  unfreeze_credits-contains,
}
use claw_net.Credits.Transfers.{transfer_credits_effect}
use claw_net.Credits.Prestige.{add_prestige-balance}
use claw_net.Tasks.{Task, is_submitted, get_task}
use claw_net.Daemon.Node.{Node, Env, unfreeze_reward, award_prestige, recalc_reputation, republish}
use claw_net.Daemon.Kept.{republish-ledger, pay-ledger}
use claw_net.Daemon.TaskApi.Approval.{approved_first}
use claw_net.Daemon.TaskApi.{
  ok, credit_worker, settle_approved, finish_approve, handle_task_approve,
}
use claw_net.Daemon.TaskApi.Answers.{close_approved-ledger}

credit_worker-balance :
    (env : Env) (t : Task) (n : Node) (k : String)
    → balance_of k (credit_worker env t n).ledger ≡ balance_of k n.ledger
unfolding credit_worker recalc_reputation award_prestige
credit_worker-balance env t n k = add_prestige-balance env.floats t.assigned_to _ _ k n.ledger

unfreeze_reward-uuids :
    (peer : String) (r : ℤ) (n : Node) → (unfreeze_reward peer r n).uuids ≡ n.uuids
unfolding unfreeze_reward
unfreeze_reward-uuids peer r n = ground arith

pub unfreeze_reward-ledger :
    (peer : String) (r : ℤ) (n : Node)
    → ltb_ℤ (pos 0) r ≡ true
    → (unfreeze_reward peer r n).ledger ≡ unfreeze_credits peer r n.ledger
unfolding unfreeze_reward
unfreeze_reward-ledger peer r n e = rw e refl

-- The balances after the payment are those after its transfer.
paid_balance :
    (env : Env) (id : String) (t : Task) (n : Node) (k : String)
    → (t.assigned_to == "") ≡ false
    → (t.assigned_to == t.author_id) ≡ false
    → ltb_ℤ (pos 0) t.reward ≡ true
    → balance_of k (settle_approved env id t n).ledger
      ≡ balance_of k
          (transfer_credits
            (env.uuid n.uuids)
            t.author_id
            t.assigned_to
            t.reward
            "task_reward"
            id
            (unfreeze_credits t.author_id t.reward n.ledger)).0
unfolding settle_approved
paid_balance env id t n k someone other paid =
    rw (other, someone, paid)
      (credit_worker-balance env t _ k
        ∙ rw
            (
              pay-ledger env t.author_id t.assigned_to t.reward "task_reward" id
                  (unfreeze_reward t.author_id t.reward n),
              unfreeze_reward-ledger t.author_id t.reward n paid,
              unfreeze_reward-uuids t.author_id t.reward n,
            )
            refl)

finish_approve-ledger :
    (env : Env) (id : String) (t : Task) (n : Node)
    → (finish_approve env id t n).ledger ≡ (settle_approved env id t n).ledger
unfolding finish_approve
finish_approve-ledger env id t n =
    close_approved-ledger env id (republish env id (settle_approved env id t n))
    ∙ republish-ledger env id _

-- Approving a stored task that can be read, for which its reward is below a million, and that is submitted, has a worker other than its author and a positive
-- reward pays it: when the author's account has at least the reward frozen and a balance that is
-- not negative, and the next uuid is not a used transaction id, the answer is 200, the worker's
-- balance grows by the whole reward, and the author's available balance is what it was.
pub handle_task_approve_pays :
    (env : Env) (id : String) (n : Node) {t : Task} {a : Account}
    → get_task id n.store ≡ some t
    → is_submitted t.status ≡ true
    → t.assigned_to ≢ ""
    → t.assigned_to ≢ t.author_id
    → pos 0 <ℤ t.reward
    → find t.author_id n.ledger.accounts ≡ some a
    → t.reward ≤ℤ a.frozen
    → pos 0 ≤ℤ a.balance
    → contains (env.uuid n.uuids) n.ledger.transactions ≡ false
    → let (n', code) = handle_task_approve env id n in
      (code ≡ ok)
      × (balance_of t.assigned_to n'.ledger ≡ balance_of t.assigned_to n.ledger +ℤ t.reward)
      × (balance_of t.author_id n'.ledger ≡ a.balance)
handle_task_approve_pays env id n {t} {a} e ready someone other paid row frozen nonneg fresh =
    rw (approved_first env id n e ready) (
      refl,
      ap (balance_of t.assigned_to) (finish_approve-ledger env id t _)
          ∙ paid_balance env id t _ t.assigned_to blank not_author positive
          ∙ transfer_credits-receiver (env.uuid n.uuids) t.author_id t.assigned_to t.reward
              "task_reward" id l ne unfrozen enough fresh'
          ∙ ap (λ o. weight (λ b. b.balance) o +ℤ t.reward)
              (unfreeze_credits-other t.author_id t.assigned_to t.reward n.ledger ne),
      ap (balance_of t.author_id) (finish_approve-ledger env id t _)
          ∙ paid_balance env id t _ t.author_id blank not_author positive
          ∙ ap (weight (λ b. b.balance))
              (transfer_credits_effect (env.uuid n.uuids) t.author_id t.assigned_to t.reward
                "task_reward" id l ne unfrozen enough fresh').0
          ∙ omega int_laws,
    )
  where
    l : Ledger
    l = unfreeze_credits t.author_id t.reward n.ledger

    blank : (t.assigned_to == "") ≡ false
    blank = text_ne t.assigned_to "" someone

    not_author : (t.assigned_to == t.author_id) ≡ false
    not_author = text_ne t.assigned_to t.author_id other

    positive : ltb_ℤ (pos 0) t.reward ≡ true
    positive = ground arith

    ne : t.author_id ≢ t.assigned_to
    ne q = other (sym q)

    unfrozen :
        find t.author_id l.accounts
        ≡ some (record a { balance = a.balance +ℤ t.reward; frozen = a.frozen -ℤ t.reward })
    unfrozen = unfreeze_credits-balance t.author_id t.reward n.ledger row frozen

    enough : t.reward ≤ℤ a.balance +ℤ t.reward
    enough = omega int_laws

    fresh' : contains (env.uuid n.uuids) l.transactions ≡ false
    fresh' = unfreeze_credits-contains t.author_id t.reward (env.uuid n.uuids) n.ledger fresh
