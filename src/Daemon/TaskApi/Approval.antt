-- ===== src/Daemon/TaskApi/Approval.antt =====
-- What approving submitted work does: `handleTaskApprove` of
-- clawnet-cli/internal/daemon/phase2_api.go.
use claw_net.Base.{
  String, Bool, true, false, not, ◌&&◌, none, some, inl, inr, ◌≡◌, refl, ◌∙◌, ap, arith, Bool-cases,
  Option-cases, if◌then◌else◌, ◌==◌,
}
use claw_net.Base.Int.{pos, ltb_ℤ}
use claw_net.Base.Table.{find, insert, find-insert_self}
use claw_net.Credits.{task_state_conflict}
use claw_net.Tasks.{
  Task, TaskStore, approve_task, approved, is_submitted, get_task, get_task-find, find-get_task,
}
use claw_net.Daemon.Node.{
  Node, Env, unfreeze_reward, award_prestige, recalc_reputation, recalc_active_tasks, record_event,
}
use claw_net.Daemon.Resumes.{parse_tags, has_new, auto_update_resume_skills}
use claw_net.Daemon.Settler.Closing.{pay-store, unfreeze_reward-store, republish-store}
use claw_net.Daemon.TaskApi.{
  answer, ok, conflict, credit_worker, settle_approved, close_approved, finish_approve,
  handle_task_approve,
}

approve_task_refused :
    (id : String) (s : TaskStore) {t : Task}
    → find id s.tasks ≡ some t
    → is_submitted t.status ≡ false
    → approve_task id s ≡ (s, some task_state_conflict)
unfolding approve_task
approve_task_refused id s e over = ground arith

approve_task_done :
    (id : String) (s : TaskStore) {t : Task}
    → find id s.tasks ≡ some t
    → is_submitted t.status ≡ true
    → approve_task id s
      ≡ (record s { tasks = insert id (record t { status = approved }) s.tasks }, none)
unfolding approve_task
approve_task_done id s e ready = ground arith

module _ (env : Env) where
  credit_worker-store :
      (b : Bool) (t : Task) (n : Node) → (if b then n else credit_worker env t n).store ≡ n.store
  unfolding credit_worker recalc_reputation award_prestige
  credit_worker-store true t n = refl
  credit_worker-store false t n = refl

  settle_approved-store :
      (id : String) (t : Task) (n : Node) → (settle_approved env id t n).store ≡ n.store
  unfolding settle_approved
  settle_approved-store id t n = elim (Bool-cases (t.assigned_to == t.author_id)) [
    | inl own ↦ rw own (unfreeze_reward-store env t.author_id t.reward n)
    | inr other ↦ rw other (
        credit_worker-store (t.assigned_to == "") t _
        ∙ elim (Bool-cases (ltb_ℤ (pos 0) t.reward && not (t.assigned_to == ""))) [
          | inl e ↦ rw e (
              pay-store env t.author_id t.assigned_to t.reward "task_reward" id
                (unfreeze_reward t.author_id t.reward n)
              ∙ unfreeze_reward-store env t.author_id t.reward n)
          | inr e ↦ rw e refl
        ])
  ]

  close_approved-store : (id : String) (n : Node) → (close_approved env id n).store ≡ n.store
  unfolding close_approved recalc_active_tasks record_event auto_update_resume_skills
  close_approved-store id n = elim (Option-cases (get_task id n.store)) [
    | inl e ↦ rw (e, close_approved) refl
    | inr (t, e) ↦ elim (Bool-cases (t.assigned_to == "")) [
      | inl nobody ↦ rw (e, close_approved, nobody) refl
      | inr worker ↦
          rw (e, close_approved, worker)
            (elim (Option-cases (find t.assigned_to n.resumes)) [
              | inl q ↦ rw (q, auto_update_resume_skills) refl
              | inr (r, q) ↦
                  rw (q, auto_update_resume_skills)
                    (elim (Bool-cases (has_new (parse_tags env r.skills) (parse_tags env t.tags))) [
                      | inl more ↦ rw more refl
                      | inr same ↦ rw same refl
                    ])
            ])
    ]
  ]

  finish_approve-store :
      (id : String) (t : Task) (n : Node) {row : Task}
      → find id n.store.tasks ≡ some row
      → row.id ≡ id
      → (finish_approve env id t n).store ≡ n.store
  unfolding finish_approve
  finish_approve-store id t n {row} e same =
      close_approved-store id _
      ∙ republish-store env id (settle_approved env id t n) {t = row}
          (ap (λ (s : TaskStore). find id s.tasks) (settle_approved-store id t n) ∙ e) same
      ∙ settle_approved-store id t n

  refused_again :
      (id : String) (n : Node) {t : Task}
      → get_task id n.store ≡ some t
      → is_submitted t.status ≡ false
      → handle_task_approve env id n ≡ (n, conflict)
  unfolding handle_task_approve
  refused_again id n {t} e over =
      rw (e, handle_task_approve)
        (ap (λ r. answer n r (finish_approve env id t))
          (approve_task_refused id n.store (get_task-find id n.store e).0 over))

  pub approved_first :
      (id : String) (n : Node) {t : Task}
      → get_task id n.store ≡ some t
      → is_submitted t.status ≡ true
      → handle_task_approve env id n ≡ (
        finish_approve env id t (record n {
          store = record n.store {
            tasks = insert id (record t { status = approved }) n.store.tasks;
          };
        }),
        ok,
      )
  unfolding handle_task_approve
  approved_first id n {t} e ready =
      rw (e, handle_task_approve)
        (ap (λ r. answer n r (finish_approve env id t))
          (approve_task_done id n.store (get_task-find id n.store e).0 ready))

-- Approving a task at once a second time answers 409 Conflict and changes nothing, whatever state the task was in, for a
-- task that is stored under its id and can be read: its reward is below a million.
pub handle_task_approve_once :
    (env : Env) (id : String) (n : Node) {t : Task}
    → get_task id n.store ≡ some t
    → t.id ≡ id
    → let n' = (handle_task_approve env id n).0 in handle_task_approve env id n' ≡ (n', conflict)
handle_task_approve_once env id n {t} e same = elim (Bool-cases (is_submitted t.status)) [
  | inr over ↦ rw (refused_again env id n e over) (refused_again env id n e over)
  | inl ready ↦ rw (approved_first env id n e ready) (
      refused_again env id _ {t = record t { status = approved }}
        (find-get_task id _
          (ap (λ (s : TaskStore). find id s.tasks)
              (finish_approve-store env id t _ {row = record t { status = approved }}
                (find-insert_self id (record t { status = approved }) n.store.tasks) same)
            ∙ find-insert_self id (record t { status = approved }) n.store.tasks)
          (get_task-find id n.store e).1)
        refl)
]
