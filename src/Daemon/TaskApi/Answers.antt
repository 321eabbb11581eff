-- ===== src/Daemon/TaskApi/Answers.antt =====
-- What the handlers that move a task through its states keep true of the ledger:
-- clawnet-cli/internal/daemon/phase2_api.go.
use claw_net.Base.{
  ℕ, String, not, ◌&&◌, Option, none, some, inl, inr, ◌≡◌, refl, arith, Option-cases, Bool-cases,
  if◌then◌else◌, ◌==◌,
}
use claw_net.Base.Int.{pos, ltb_ℤ}
use claw_net.Base.Table.{find}
use claw_net.Credits.{Ledger, StoreError}
use claw_net.Tasks.{
  Task, TaskStore, TaskBid, assign_task, submit_task, approve_task, reject_task, cancel_task,
  get_task, peek_task,
}
use claw_net.Daemon.Node.{
  Node, Env, unfreeze_reward, recalc_reputation, recalc_active_tasks, record_event, republish,
}
use claw_net.Daemon.Kept.{
  IsKept, republish-ledger, pay-Kept, unfreeze_reward-Kept, award_prestige-Kept,
}
use claw_net.Daemon.Publishing.{publish_task_bid}
use claw_net.Daemon.Publishing.Ledger.{publish_task_bid-ledger}
use claw_net.Daemon.Resumes.{parse_tags, has_new, auto_update_resume_skills}
use claw_net.Daemon.TaskApi.{
  answer, handle_task_bid, handle_task_assign, handle_task_submit, credit_worker, settle_approved,
  close_approved, handle_task_approve, handle_task_reject, handle_task_cancel, is_bid_refused,
  is_by, finish_assign, finish_approve, finish_reject, finish_cancel, ok, bad_request,
  internal_error,
}

module _ (env : Env) where
  pub auto_update_resume_skills-ledger :
      (peer tags : String) (n : Node)
      → (auto_update_resume_skills env peer tags n).0.ledger ≡ n.ledger
  unfolding auto_update_resume_skills
  auto_update_resume_skills-ledger peer tags n = elim (Option-cases (find peer n.resumes)) [
    | inl e ↦ rw (e, auto_update_resume_skills) refl
    | inr (r, e) ↦
        rw (e, auto_update_resume_skills)
          (elim (Bool-cases (has_new (parse_tags env r.skills) (parse_tags env tags))) [
            | inl more ↦ rw more refl
            | inr same ↦ rw same refl
          ])
  ]

  pub close_approved-ledger : (id : String) (n : Node) → (close_approved env id n).ledger ≡ n.ledger
  unfolding close_approved recalc_active_tasks auto_update_resume_skills record_event
  close_approved-ledger id n = elim (Option-cases (get_task id n.store)) [
    | inl e ↦ rw (e, close_approved) refl
    | inr (t, e) ↦ elim (Bool-cases (t.assigned_to == "")) [
      | inl nobody ↦ rw (e, close_approved, nobody) refl
      | inr worker ↦
          rw (e, close_approved, worker)
            (auto_update_resume_skills-ledger t.assigned_to t.tags
              (record_event "task_approved" env.self id n))
    ]
  ]

module _ (env : Env) (P : Ledger → Type 0) (kept : IsKept env.floats P) where
  pub answer-Kept :
      (n : Node) (r : TaskStore × Option StoreError) (next : Node → Node)
      → ((m : Node) → P m.ledger → P (next m).ledger)
      → P n.ledger
      → P (answer n r next).0.ledger
  answer-Kept n (s, none) next keeps p = keeps _ p
  answer-Kept n (s, some e) next keeps p = p

  pub republish-Kept : (id : String) (n : Node) → P n.ledger → P (republish env id n).ledger
  republish-Kept id n p = rw (republish-ledger env id n) p

  pub handle_task_bid-Kept :
      (id : String) (body : Option TaskBid) (n : Node)
      → P n.ledger
      → P (handle_task_bid env id body n).0.ledger
  unfolding handle_task_bid
  handle_task_bid-Kept id body n p =
      elim (Bool-cases (is_bid_refused env.self (peek_task id n.store))) [
        | inl e ↦ rw (e, handle_task_bid) p
        | inr e ↦ rw (e, handle_task_bid) (bid_body body)
      ]
    where
      bid_body :
          (body : Option TaskBid)
          → P
              (elim body as (λ _. Node × ℕ) [
                | none ↦ (n, bad_request)
                | some b ↦
                    let (n', e) = publish_task_bid env (record b { id = ""; task_id = id }) n in
                    (n', elim e [ none ↦ ok | some _ ↦ internal_error ])
              ]).0.ledger
      bid_body none = p
      bid_body (some b) = rw (publish_task_bid-ledger env (record b { id = ""; task_id = id }) n) p

  pub handle_task_assign-Kept :
      (id : String) (body : Option String) (n : Node)
      → P n.ledger
      → P (handle_task_assign env id body n).0.ledger
  unfolding handle_task_assign recalc_active_tasks finish_assign
  handle_task_assign-Kept id none n p = p
  handle_task_assign-Kept id (some peer) n p = elim (Bool-cases (peer == "")) [
    | inl e ↦ rw e p
    | inr e ↦ elim (Bool-cases (is_by peer (peek_task id n.store))) [
      | inl own ↦ rw (e, own) p
      | inr other ↦
          rw (e, other)
            (answer-Kept n (assign_task id peer n.store) (finish_assign env id peer)
              (republish-Kept id) p)
    ]
  ]

  pub handle_task_submit-Kept :
      (id : String) (body : Option String) (n : Node)
      → P n.ledger
      → P (handle_task_submit env id body n).0.ledger
  unfolding handle_task_submit
  handle_task_submit-Kept id none n p = p
  handle_task_submit-Kept id (some result) n p =
      answer-Kept n (submit_task id result n.store) (republish env id) (republish-Kept id) p

  pub worker-Kept :
      (t : Task) (n : Node)
      → P n.ledger
      → P (if t.assigned_to == "" then n else credit_worker env t n).ledger
  unfolding credit_worker recalc_reputation
  worker-Kept t n p = elim (Bool-cases (t.assigned_to == "")) [
    | inl e ↦ rw e p
    | inr e ↦ rw e (award_prestige-Kept env P kept _ _ _ (recalc_reputation t.assigned_to n) p)
  ]

  pub settle_approved-Kept :
      (id : String) (t : Task) (n : Node) → P n.ledger → P (settle_approved env id t n).ledger
  unfolding settle_approved credit_worker recalc_reputation
  settle_approved-Kept id t n p = elim (Bool-cases (t.assigned_to == t.author_id)) [
    | inl own ↦ rw own (unfreeze_reward-Kept env P kept t.author_id t.reward n p)
    | inr other ↦ elim (Bool-cases (ltb_ℤ (pos 0) t.reward && not (t.assigned_to == ""))) [
      | inl e ↦
          rw (other, e)
            (worker-Kept t _ (
              pay-Kept env P kept _ _ t.reward _ _ _ (ground arith)
                (unfreeze_reward-Kept env P kept t.author_id t.reward n p)))
      | inr e ↦ rw (other, e) (worker-Kept t n p)
    ]
  ]

  pub finish_approve-Kept :
      (id : String) (t : Task) (n : Node) → P n.ledger → P (finish_approve env id t n).ledger
  unfolding finish_approve
  finish_approve-Kept id t n p =
      rw (close_approved-ledger env id (republish env id (settle_approved env id t n)))
        (republish-Kept id (settle_approved env id t n) (settle_approved-Kept id t n p))

  pub handle_task_approve-Kept :
      (id : String) (n : Node) → P n.ledger → P (handle_task_approve env id n).0.ledger
  unfolding handle_task_approve
  handle_task_approve-Kept id n p = elim (Option-cases (get_task id n.store)) [
    | inl e ↦ rw (e, handle_task_approve) p
    | inr (t, e) ↦
        rw (e, handle_task_approve)
          (answer-Kept n (approve_task id n.store) (finish_approve env id t)
            (finish_approve-Kept id t) p)
  ]

  pub finish_reject-Kept :
      (id : String) (t : Task) (n : Node) → P n.ledger → P (finish_reject env id t n).ledger
  unfolding finish_reject recalc_active_tasks recalc_reputation
  finish_reject-Kept id t n p =
      rw (republish-ledger env id _) (elim (Bool-cases (t.assigned_to == "")) [
        | inl nobody ↦ rw nobody (unfreeze_reward-Kept env P kept t.author_id t.reward n p)
        | inr worker ↦ rw worker (unfreeze_reward-Kept env P kept t.author_id t.reward n p)
      ])

  pub handle_task_reject-Kept :
      (id : String) (n : Node) → P n.ledger → P (handle_task_reject env id n).0.ledger
  unfolding handle_task_reject
  handle_task_reject-Kept id n p = elim (Option-cases (get_task id n.store)) [
    | inl e ↦ rw (e, handle_task_reject) p
    | inr (t, e) ↦
        rw (e, handle_task_reject)
          (answer-Kept n (reject_task id n.store) (finish_reject env id t) (finish_reject-Kept id t)
            p)
  ]

  pub finish_cancel-Kept :
      (id : String) (t : Task) (n : Node) → P n.ledger → P (finish_cancel env id t n).ledger
  unfolding finish_cancel
  finish_cancel-Kept id t n p =
      republish-Kept id (unfreeze_reward t.author_id t.reward n)
        (unfreeze_reward-Kept env P kept t.author_id t.reward n p)

  pub handle_task_cancel-Kept :
      (id : String) (n : Node) → P n.ledger → P (handle_task_cancel env id n).0.ledger
  unfolding handle_task_cancel
  handle_task_cancel-Kept id n p = elim (Option-cases (get_task id n.store)) [
    | inl e ↦ rw (e, handle_task_cancel) p
    | inr (t, e) ↦
        rw (e, handle_task_cancel)
          (elim (Bool-cases (t.author_id == env.self)) [
            | inl own ↦ rw own (
                answer-Kept n (cancel_task id n.store) (finish_cancel env id t)
                  (finish_cancel-Kept id t) p)
            | inr other ↦ rw other p
          ])
  ]
