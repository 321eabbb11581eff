-- ===== src/Daemon/TaskApi/Claims.antt =====
-- The HTTP handlers for claiming a task, for submitting work to an auction and for picking its winner:
-- clawnet-cli/internal/daemon/phase2_api.go, `handleTaskClaim`, `handleTaskSubmitWork` and
-- `handleTaskPickWinner`.
use claw_net.Base.{
  ℕ, String, Bool, false, not, ◌||◌, Option, none, some, List, [], ◌∷◌, if◌then◌else◌, ◌==◌,
  or_empty,
}
use claw_net.Base.Int.{pos}
use claw_net.Float.{Float64, less}
use claw_net.Tasks.{
  Task, is_open, is_assigned, is_submitted, TaskBid, TaskSubmission, claim_task, list_task_bids,
  get_task,
}
use claw_net.Tasks.Submissions.{list_task_submissions}
use claw_net.Daemon.Node.{Node, Env, recalc_active_tasks, record_event, republish}
use claw_net.Daemon.Publishing.{publish_task_submission}
use claw_net.Daemon.Milestones.{check_and_complete_milestone}
use claw_net.Daemon.Settler.{settle_task}
use claw_net.Daemon.TaskApi.{
  ok, bad_request, forbidden, not_found, conflict, internal_error, answer, is_targeted_away,
}

abbrev pub has_bid : String → List TaskBid → Bool
has_bid peer [] = false
has_bid peer (b ∷ bs) = b.bidder_id == peer || has_bid peer bs

abbrev pub has_submitted : String → List TaskSubmission → Bool
has_submitted peer [] = false
has_submitted peer (s ∷ ss) = s.worker_id == peer || has_submitted peer ss

abbrev pub find_submission : String → List TaskSubmission → Option TaskSubmission
find_submission id [] = none
find_submission id (s ∷ ss) = if s.id == id then some s else find_submission id ss

abbrev pub new_submission : String → String → TaskSubmission
new_submission task result = record {
  id = "";
  task_id = task;
  worker_id = "";
  result = result;
  is_winner = false;
}

module _ (env : Env) where
  open env use {self, uuid, floats}

  -- The guards of `handleTaskClaim` on the task, in order.
  abbrev pub claim_refusal : Task → Option ℕ
  claim_refusal t =
      if not (t.mode == "simple")
      then some bad_request
      else (if not (is_open t.status)
          then some conflict
          else (if t.author_id == self || is_targeted_away self t then some forbidden else none))

  unfoldable pub finish_claim : String → Node → Node
  finish_claim id n =
      let n = (check_and_complete_milestone env "first_task_claim" (republish env id n)).0 in
      recalc_active_tasks self (record_event "task_claimed" self id n)

  unfoldable pub handle_task_claim : String → Option (String × Float64) → Node → Node × ℕ
  handle_task_claim id body n = elim (get_task id n.store) [
    | none ↦ (n, not_found)
    | some t ↦ elim (claim_refusal t) [
      | some code ↦ (n, code)
      | none ↦ elim body [
        | none ↦ (n, bad_request)
        | some (result, score) ↦
            if result == "" || less score (floats.decimal (pos 6) 1)
            then (n, bad_request)
            else answer n (claim_task id self result score n.store) (finish_claim id)
      ]
    ]
  ]

  unfoldable pub handle_task_submit_work : String → Option String → Node → Node × ℕ
  handle_task_submit_work id body n = elim (get_task id n.store) [
    | none ↦ (n, not_found)
    | some t ↦
        if not (is_open t.status || is_assigned t.status)
        then (n, conflict)
        else (if not (has_bid self (or_empty (list_task_bids id n.store)))
            then (n, forbidden)
            else (if has_submitted self (list_task_submissions id n.store)
                then (n, conflict)
                else elim body [
                  | none ↦ (n, bad_request)
                  | some result ↦
                      if result == ""
                      then (n, bad_request)
                      else let (n', e) = publish_task_submission env (new_submission id result) n in
                        (n', elim e [ none ↦ ok | some _ ↦ internal_error ])
                ]))
  ]

  -- The last part of `handleTaskPickWinner`, from the list of submissions on.
  unfoldable pub settle_chosen : Task → String → List TaskSubmission → Node → Node × ℕ
  settle_chosen t submission [] n = (n, bad_request)
  settle_chosen t submission (s ∷ ss) n = elim (find_submission submission (s ∷ ss)) [
    | none ↦ (n, not_found)
    | some winner ↦ (settle_task env t (s ∷ ss) winner n, ok)
  ]

  unfoldable pub handle_task_pick_winner : String → Option String → Node → Node × ℕ
  handle_task_pick_winner id body n = elim (get_task id n.store) [
    | none ↦ (n, not_found)
    | some t ↦
        if not (t.author_id == self)
        then (n, forbidden)
        else (if not (is_open t.status || is_assigned t.status || is_submitted t.status)
            then (n, conflict)
            else elim body [
              | none ↦ (n, bad_request)
              | some submission ↦
                  if submission == ""
                  then (n, bad_request)
                  else settle_chosen t submission (list_task_submissions id n.store) n
            ])
  ]
