-- ===== src/Daemon/TaskApi/Work.antt =====
-- What the handlers for the work on a task keep true of the ledger:
-- clawnet-cli/internal/daemon/phase2_api.go.
use claw_net.Base.{
  ℕ, String, ◌||◌, Option, none, some, inl, inr, List, [], ◌∷◌, Option-cases, Bool-cases,
  if◌then◌else◌, ◌==◌, or_empty,
}
use claw_net.Base.Int.{pos}
use claw_net.Float.{Float64, less}
use claw_net.Credits.{Ledger}
use claw_net.Tasks.{
  Task, TaskSubmission, claim_task, list_task_bids, is_open, is_assigned, is_submitted, get_task,
}
use claw_net.Tasks.Submissions.{list_task_submissions}
use claw_net.Daemon.Node.{Node, Env, recalc_active_tasks, record_event, republish}
use claw_net.Daemon.Kept.{IsKept}
use claw_net.Daemon.Publishing.{publish_task_submission}
use claw_net.Daemon.Publishing.Ledger.{publish_task_submission-ledger}
use claw_net.Daemon.Settler.Supply.{settle_task-Kept}
use claw_net.Daemon.TaskApi.{answer, ok, bad_request, internal_error}
use claw_net.Daemon.TaskApi.Claims.{
  handle_task_claim, handle_task_submit_work, handle_task_pick_winner, settle_chosen,
  find_submission, finish_claim, claim_refusal, has_bid, has_submitted, new_submission,
}
use claw_net.Daemon.TaskApi.Answers.{answer-Kept, republish-Kept}
use claw_net.Daemon.TaskApi.Creation.{milestone-Kept}

module _ (env : Env) (P : Ledger → Type 0) (kept : IsKept env.floats P) where
  pub settle_chosen-Kept :
      (t : Task) (submission : String) (subs : List TaskSubmission) (n : Node)
      → P n.ledger
      → P (settle_chosen env t submission subs n).0.ledger
  unfolding settle_chosen
  settle_chosen-Kept t submission [] n p = p
  settle_chosen-Kept t submission (s ∷ ss) n p =
      elim (Option-cases (find_submission submission (s ∷ ss))) [
        | inl e ↦ rw (e, settle_chosen) p
        | inr (winner, e) ↦
            rw (e, settle_chosen) (settle_task-Kept env P kept t (s ∷ ss) winner n p)
      ]

  pub handle_task_pick_winner-Kept :
      (id : String) (body : Option String) (n : Node)
      → P n.ledger
      → P (handle_task_pick_winner env id body n).0.ledger
  unfolding handle_task_pick_winner
  handle_task_pick_winner-Kept id body n p = elim (Option-cases (get_task id n.store)) [
    | inl e ↦ rw (e, handle_task_pick_winner) p
    | inr (t, e) ↦
        rw (e, handle_task_pick_winner)
          (elim (Bool-cases (t.author_id == env.self)) [
            | inr other ↦ rw other p
            | inl own ↦
                rw own
                  (elim (Bool-cases
                    (is_open t.status || is_assigned t.status || is_submitted t.status)) [
                      | inr over ↦ rw over p
                      | inl active ↦ rw active (chosen t body)
                    ])
          ])
  ]
    where
      chosen :
          (t : Task) (body : Option String)
          → P
              (elim body as (λ _. Node × ℕ) [
                | none ↦ (n, bad_request)
                | some submission ↦
                    if submission == ""
                    then (n, bad_request)
                    else settle_chosen env t submission (list_task_submissions id n.store) n
              ]).0.ledger
      chosen t none = p
      chosen t (some s) = elim (Bool-cases (s == "")) [
        | inl e ↦ rw e p
        | inr e ↦ rw e (settle_chosen-Kept t s (list_task_submissions id n.store) n p)
      ]

  pub finish_claim-Kept : (id : String) (n : Node) → P n.ledger → P (finish_claim env id n).ledger
  unfolding finish_claim recalc_active_tasks record_event
  finish_claim-Kept id n p =
      milestone-Kept env P kept "first_task_claim" (republish env id n)
        (republish-Kept env P kept id n p)

  pub handle_task_claim-Kept :
      (id : String) (body : Option (String × Float64)) (n : Node)
      → P n.ledger
      → P (handle_task_claim env id body n).0.ledger
  unfolding handle_task_claim
  handle_task_claim-Kept id body n p = elim (Option-cases (get_task id n.store)) [
    | inl e ↦ rw (e, handle_task_claim) p
    | inr (t, e) ↦
        rw (e, handle_task_claim)
          (elim (Option-cases (claim_refusal env t)) [
            | inr (code, c) ↦ rw c p
            | inl c ↦ rw c (claimed body)
          ])
  ]
    where
      claimed :
          (body : Option (String × Float64))
          → P
              (elim body as (λ _. Node × ℕ) [
                | none ↦ (n, bad_request)
                | some (result, score) ↦
                    if result == "" || less score (env.floats.decimal (pos 6) 1)
                    then (n, bad_request)
                    else answer n
                        (claim_task id env.self result score n.store)
                        (finish_claim env id)
              ]).0.ledger
      claimed none = p
      claimed (some (result, score)) =
          elim (Bool-cases (result == "" || less score (env.floats.decimal (pos 6) 1))) [
            | inl bad ↦ rw bad p
            | inr good ↦ rw good (
                answer-Kept env P kept n (claim_task id env.self result score n.store)
                  (finish_claim env id) (finish_claim-Kept id) p)
          ]

  pub handle_task_submit_work-Kept :
      (id : String) (body : Option String) (n : Node)
      → P n.ledger
      → P (handle_task_submit_work env id body n).0.ledger
  unfolding handle_task_submit_work
  handle_task_submit_work-Kept id body n p = elim (Option-cases (get_task id n.store)) [
    | inl e ↦ rw (e, handle_task_submit_work) p
    | inr (t, e) ↦
        rw (e, handle_task_submit_work)
          (elim (Bool-cases (is_open t.status || is_assigned t.status)) [
            | inr over ↦ rw over p
            | inl active ↦
                rw active
                  (elim (Bool-cases (has_bid env.self (or_empty (list_task_bids id n.store)))) [
                    | inr outsider ↦ rw outsider p
                    | inl bidder ↦
                        rw bidder
                          (elim (Bool-cases
                            (has_submitted env.self (list_task_submissions id n.store))) [
                              | inl again ↦ rw again p
                              | inr first ↦ rw first (worked body)
                            ])
                  ])
          ])
  ]
    where
      worked :
          (body : Option String)
          → P
              (elim body as (λ _. Node × ℕ) [
                | none ↦ (n, bad_request)
                | some result ↦
                    if result == ""
                    then (n, bad_request)
                    else let (n', e) = publish_task_submission env (new_submission id result) n in
                      (n', elim e [ none ↦ ok | some _ ↦ internal_error ])
              ]).0.ledger
      worked none = p
      worked (some result) = elim (Bool-cases (result == "")) [
        | inl e ↦ rw e p
        | inr e ↦ rw e (rw (publish_task_submission-ledger env (new_submission id result) n) p)
      ]
