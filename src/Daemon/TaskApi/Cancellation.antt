-- ===== src/Daemon/TaskApi/Cancellation.antt =====
-- What cancelling a task does: `handleTaskCancel` of
-- clawnet-cli/internal/daemon/phase2_api.go.
use claw_net.Base.{String, true, ◌||◌, none, some, ◌≡◌, refl, ◌∙◌, ap, arith, ◌==◌, text_refl, sym}
use claw_net.Base.Int.{pos, ◌+ℤ◌, ◌-ℤ◌, ◌≤ℤ◌, ◌<ℤ◌, ltb_ℤ}
use claw_net.Base.Table.{find, insert, find-insert_self}
use claw_net.Credits.{Account, unfreeze_credits}
use claw_net.Credits.Balances.{unfreeze_credits-balance}
use claw_net.Tasks.{
  Task, TaskStore, cancel_task, cancelled, is_open, is_assigned, get_task, get_task-find,
}
use claw_net.Daemon.Node.{Node, Env, unfreeze_reward}
use claw_net.Daemon.Kept.{republish-ledger}
use claw_net.Daemon.Settler.Closing.{unfreeze_reward-store, republish-store}
use claw_net.Daemon.TaskApi.Payment.{unfreeze_reward-ledger}
use claw_net.Daemon.TaskApi.{answer, ok, finish_cancel, handle_task_cancel}

cancel_task_done :
    (id : String) (s : TaskStore) {t : Task}
    → find id s.tasks ≡ some t
    → (is_open t.status || is_assigned t.status) ≡ true
    → cancel_task id s
      ≡ (record s { tasks = insert id (record t { status = cancelled }) s.tasks }, none)
unfolding cancel_task
cancel_task_done id s e ready = ground arith

module _ (env : Env) (id : String) (n : Node) (t : Task) where
  -- The node with the row marked as cancelled.
  abbrev marked : Node
  marked = record n {
    store = record n.store { tasks = insert id (record t { status = cancelled }) n.store.tasks };
  }

  cancelled_first :
      get_task id n.store ≡ some t
      → t.author_id ≡ env.self
      → (is_open t.status || is_assigned t.status) ≡ true
      → handle_task_cancel env id n ≡ (finish_cancel env id t marked, ok)
  unfolding handle_task_cancel
  cancelled_first e own ready =
      let mine : (t.author_id == env.self) ≡ true =
        ap (λ p. t.author_id == p) (sym own) ∙ text_refl t.author_id in
      rw (e, handle_task_cancel)
        (rw mine (
          ap (λ r. answer n r (finish_cancel env id t))
            (cancel_task_done id n.store (get_task-find id n.store e).0 ready)))

-- The node can cancel a task of its own that is stored under its id, is open or assigned, and has
-- a positive reward below a million, so that the task can be read: when its account has at least the reward frozen, the answer is 200, the
-- reward is available again in full, nothing else of the account changes, and the task is marked
-- as cancelled.
pub handle_task_cancel_refunds :
    (env : Env) (id : String) (n : Node) {t : Task} {a : Account}
    → get_task id n.store ≡ some t
    → t.id ≡ id
    → t.author_id ≡ env.self
    → (is_open t.status || is_assigned t.status) ≡ true
    → pos 0 <ℤ t.reward
    → find env.self n.ledger.accounts ≡ some a
    → t.reward ≤ℤ a.frozen
    → let (n', code) = handle_task_cancel env id n in
      (code ≡ ok)
      × (find env.self n'.ledger.accounts
          ≡ some (record a { balance = a.balance +ℤ t.reward; frozen = a.frozen -ℤ t.reward }))
      × (find id n'.store.tasks ≡ some (record t { status = cancelled }))
unfolding finish_cancel
handle_task_cancel_refunds env id n {t} {a} e same own ready paid row frozen =
    rw (cancelled_first env id n t e own ready) (
      refl,
      ap (λ l. find env.self l.accounts)
            (republish-ledger env id refunded
              ∙ unfreeze_reward-ledger t.author_id t.reward (marked env id n t) positive)
          ∙ ap (λ p. find p (unfreeze_credits t.author_id t.reward n.ledger).accounts) (sym own)
          ∙ unfreeze_credits-balance t.author_id t.reward n.ledger
              (ap (λ p. find p n.ledger.accounts) own ∙ row) frozen,
      ap (λ (s : TaskStore). find id s.tasks)
            (republish-store env id refunded {t = gone} stored same ∙ kept)
          ∙ find-insert_self id gone n.store.tasks,
    )
  where
    gone : Task
    gone = record t { status = cancelled }

    refunded : Node
    refunded = unfreeze_reward t.author_id t.reward (marked env id n t)

    positive : ltb_ℤ (pos 0) t.reward ≡ true
    positive = ground arith

    kept : refunded.store ≡ (marked env id n t).store
    kept = unfreeze_reward-store env t.author_id t.reward (marked env id n t)

    stored : find id refunded.store.tasks ≡ some gone
    stored = ap (λ (s : TaskStore). find id s.tasks) kept ∙ find-insert_self id gone n.store.tasks
