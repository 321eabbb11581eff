-- ===== src/Daemon/Settler/Closing.antt =====
-- That settlement ends a task: clawnet-cli/internal/daemon/settler.go.
use claw_net.Base.{
  String, Bool, true, false, some, inl, inr, List, [], ◌∷◌, ◌≡◌, refl, ◌∙◌, ap, arith, Bool-cases,
  if◌then◌else◌, ◌==◌, ◌==ℕ◌, not, ◌&&◌, ◌||◌, length, Option-cases, sym,
}
use claw_net.Base.Int.{ℤ, pos, ltb_ℤ}
use claw_net.Base.Table.{find, insert, find-insert_self}
use claw_net.Float.{Float64}
use claw_net.Tasks.{
  Task, Status, settled, is_open, is_assigned, is_submitted, TaskStore, TaskSubmission,
  settle_task as settle_row, get_task, get_task-find,
}
use claw_net.Tasks.Submissions.{mark_winner}
use claw_net.Tasks.Upsert.{insert_task_again}
use claw_net.Daemon.Node.{
  Node, Env, Message, publish, publish_credit_audit, pay, unfreeze_reward, publish_task_update,
  republish, award_prestige, recalc_reputation,
}
use claw_net.Daemon.Settler.{
  is_closed, is_consoled, pay_submission, pay_submissions, distribute, console_prestige,
  reward_prestige, settle_task,
}

pub publish-store : (env : Env) (m : Message) (n : Node) → (publish env m n).0.store ≡ n.store
unfolding publish
publish-store env m n = ground arith

module _ (env : Env) where
  pub pay-store :
      (from to : String) (amount : ℤ) (reason task : String) (n : Node)
      → (pay env from to amount reason task n).store ≡ n.store
  unfolding pay publish_credit_audit
  pay-store from to amount reason task n = publish-store env _ _

  pub unfreeze_reward-store :
      (peer : String) (amount : ℤ) (n : Node) → (unfreeze_reward peer amount n).store ≡ n.store
  unfolding unfreeze_reward
  unfreeze_reward-store peer amount n = ground arith

  pay_if-store :
      (b : Bool) (from to : String) (amount : ℤ) (reason task : String) (n : Node)
      → (if b then pay env from to amount reason task n else n).store ≡ n.store
  pay_if-store true from to amount reason task n = pay-store from to amount reason task n
  pay_if-store false from to amount reason task n = refl

  pay_submissions-store :
      (t : Task) (winner : TaskSubmission) (winner_pay each : ℤ) (subs : List TaskSubmission)
      (n : Node)
      → (pay_submissions env t winner winner_pay each subs n).store ≡ n.store
  unfolding pay_submissions pay_submission
  pay_submissions-store t winner winner_pay each [] n = refl
  pay_submissions-store t winner winner_pay each (sub ∷ subs) n =
      pay_submissions-store t winner winner_pay each subs
        (pay_submission env t winner winner_pay each sub n)
      ∙ elim (Bool-cases (sub.worker_id == t.author_id)) [
        | inl e ↦ rw e refl
        | inr e ↦ elim (Bool-cases (sub.id == winner.id)) [
          | inl w ↦ rw (e, w) (pay_if-store (ltb_ℤ (pos 0) winner_pay) _ _ winner_pay _ _ n)
          | inr w ↦ rw (e, w) (pay_if-store (ltb_ℤ (pos 0) each) _ _ each _ _ n)
        ]
      ]

  distribute-store :
      (t : Task) (subs : List TaskSubmission) (winner : TaskSubmission) (n : Node)
      → (distribute env t subs winner n).store ≡ n.store
  unfolding distribute
  distribute-store t subs winner n = elim (Bool-cases (length subs ==ℕ 1)) [
    | inl one ↦ rw one (
        pay_if-store (ltb_ℤ (pos 0) t.reward && not (winner.worker_id == t.author_id)) _ _ t.reward
          _ _ n)
    | inr many ↦ rw many (pay_submissions-store t winner _ _ subs n)
  ]

  console_prestige-store :
      (t : Task) (winner : TaskSubmission) (evaluator : Float64) (subs : List TaskSubmission)
      (n : Node)
      → (console_prestige env t winner evaluator subs n).store ≡ n.store
  unfolding console_prestige award_prestige
  console_prestige-store t winner evaluator [] n = refl
  console_prestige-store t winner evaluator (sub ∷ subs) n =
      console_prestige-store t winner evaluator subs _
      ∙ elim (Bool-cases (is_consoled t winner sub)) [ inl e ↦ rw e refl | inr e ↦ rw e refl ]

  reward_prestige-store :
      (t : Task) (subs : List TaskSubmission) (winner : TaskSubmission) (n : Node)
      → (reward_prestige env t subs winner n).store ≡ n.store
  unfolding reward_prestige recalc_reputation award_prestige
  reward_prestige-store t subs winner n = elim (Bool-cases (winner.worker_id == t.author_id)) [
    | inl e ↦ rw e refl
    | inr e ↦ rw e (console_prestige-store t winner _ subs _)
  ]

  -- Publishing the stored row again leaves the store as it is.
  pub republish-store :
      (id : String) (n : Node) {t : Task}
      → find id n.store.tasks ≡ some t
      → t.id ≡ id
      → (republish env id n).store ≡ n.store
  unfolding republish publish_task_update
  republish-store id n {t} e same = elim (Option-cases (get_task id n.store)) [
    | inl unread ↦ rw (unread, republish) refl
    | inr (u, read) ↦
        let stored = (get_task-find id n.store read).0 in
        let row : some t ≡ some u = sym e ∙ stored in
        let same_row : t ≡ u = cc row in
        let key : u.id ≡ id = sym (ap (λ (x : Task). x.id) same_row) ∙ same in
        rw (read, republish)
          (publish-store env _ _
            ∙ insert_task_again env.now u n.store (ap (λ k. find k n.store.tasks) key ∙ stored))
  ]

-- Whether a stored task can still be settled.
abbrev pub is_active : Status → Bool
is_active s = is_open s || is_assigned s || is_submitted s

settle_row-closes :
    (id : String) (s : TaskStore) {row : Task}
    → find id s.tasks ≡ some row
    → is_active row.status ≡ true
    → (settle_row id s).0.tasks ≡ insert id (record row { status = settled }) s.tasks
unfolding settle_row
settle_row-closes id s e active = ground arith

-- Settling a task that is stored under its id and is open, assigned or submitted, from a copy that
-- is not settled, approved or cancelled either, leaves its row with all it had and the status
-- settled, and no other task changed, whatever the payments come to.
pub settle_task_closes :
    (env : Env) (t : Task) (subs : List TaskSubmission) (winner : TaskSubmission) (n : Node)
    {row : Task}
    → find t.id n.store.tasks ≡ some row
    → row.id ≡ t.id
    → is_active row.status ≡ true
    → is_closed t.status ≡ false
    → let n' = settle_task env t subs winner n in
      (find t.id n'.store.tasks ≡ some (record row { status = settled }))
      × (n'.store.tasks ≡ insert t.id (record row { status = settled }) n.store.tasks)
unfolding settle_task mark_winner
settle_task_closes env t subs winner n {row} e same active not_over =
    (ap (λ ts. find t.id ts) tasks ∙ find-insert_self t.id done n.store.tasks, tasks)
  where
    done : Task
    done = record row { status = settled }

    paid : Node
    paid = reward_prestige env t subs winner (
        distribute env t subs winner (
          unfreeze_reward t.author_id t.reward
            (record n { store = mark_winner winner.id n.store })))

    kept : paid.store ≡ mark_winner winner.id n.store
    kept =
        reward_prestige-store env t subs winner _
        ∙ distribute-store env t subs winner _
        ∙ unfreeze_reward-store env t.author_id t.reward
            (record n { store = mark_winner winner.id n.store })

    closed : (settle_row t.id paid.store).0.tasks ≡ insert t.id done n.store.tasks
    closed =
        ap (λ (s : TaskStore). (settle_row t.id s).0.tasks) kept
        ∙ settle_row-closes t.id (mark_winner winner.id n.store) e active

    tasks : (settle_task env t subs winner n).store.tasks ≡ insert t.id done n.store.tasks
    tasks = rw not_over (
        ap (λ (s : TaskStore). s.tasks)
          (republish-store env t.id (record paid { store = (settle_row t.id paid.store).0 })
            {t = done} (ap (λ ts. find t.id ts) closed ∙ find-insert_self t.id done n.store.tasks)
            same)
        ∙ closed)
