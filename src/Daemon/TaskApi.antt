-- ===== src/Daemon/TaskApi.antt =====
-- The HTTP handlers for tasks: clawnet-cli/internal/daemon/phase2_api.go, `handleCreateTask` to
-- `handleTaskPickWinner`, less those that only read.
--
-- A handler returns the node and the status code of its response. The body of a request is the value
-- that encoding/json decodes it to, `none` when that fails. Left out are the texts of responses,
-- `BroadcastEcho`, which only shows a line to the owner, and the start of `GenerateTaskInsight`, which
-- runs by itself and writes to the knowledge base.
pub mod Claims
pub mod Creation
pub mod Answers
pub mod Work
pub mod Approval
pub mod Payment
pub mod Cancellation
pub mod History
mod Examples
use claw_net.Base.{
  ℕ, suc, String, Bool, true, false, not, ◌&&◌, ◌||◌, Option, none, some, List, [], ◌∷◌,
  if◌then◌else◌, ◌==◌,
}
use claw_net.Base.Int.{ℤ, pos, ◌*ℤ◌, quot, wrap64, ltb_ℤ}
use claw_net.Base.Table.{find}
use claw_net.Float.{Float64, less}
use claw_net.Credits.{StoreError, insufficient_credits, transfer_credits}
use claw_net.Tasks.{
  Task, is_open, is_assigned, is_submitted, TaskBid, TaskSubmission, TaskStore, assign_task,
  submit_task, approve_task, claim_task, reject_task, cancel_task, list_task_bids, get_task,
  peek_task,
}
use claw_net.Tasks.Submissions.{list_task_submissions}
use claw_net.Daemon.Node.{
  Node, Env, pay, unfreeze_reward, award_prestige, prestige_of, recalc_reputation,
  recalc_active_tasks, record_event, republish,
}
use claw_net.Daemon.Publishing.{publish_task, publish_task_bid, publish_task_submission}
use claw_net.Daemon.Milestones.{check_and_complete_milestone}
use claw_net.Daemon.Resumes.{auto_update_resume_skills}
use claw_net.Daemon.Settler.{settle_task}

abbrev pub ok : ℕ
ok = 200

abbrev pub bad_request : ℕ
bad_request = 400

abbrev pub forbidden : ℕ
forbidden = 403

abbrev pub not_found : ℕ
not_found = 404

abbrev pub conflict : ℕ
conflict = 409

abbrev pub internal_error : ℕ
internal_error = 500

-- reward * 5 / 100
unfoldable pub task_fee : ℤ → ℤ
task_fee reward = quot (wrap64 (reward *ℤ pos 5)) (pos 100)

abbrev is_targeted_away : String → Task → Bool
is_targeted_away self t = not (t.target_peer == "") && not (t.target_peer == self)

-- Who may not bid: the author, and all but the target of a targeted task.
abbrev is_bid_refused : String → Option Task → Bool
is_bid_refused self none = false
is_bid_refused self (some t) = t.author_id == self || is_targeted_away self t

abbrev is_by : String → Option Task → Bool
is_by peer none = false
is_by peer (some t) = t.author_id == peer

-- What a failed write of a task answers: these writes only fail with a conflict.
abbrev answer : Node → TaskStore × Option StoreError → (Node → Node) → Node × ℕ
answer n (s, none) next = (next (record n { store = s }), ok)
answer n (s, some _) next = (record n { store = s }, conflict)

module _ (env : Env) where
  open env use {self, uuid, floats}

  -- The burnt fee, with the code of a refusal.
  unfoldable pub charge_fee : ℤ → Node → Node × Option ℕ
  unfolding task_fee
  charge_fee reward n =
      if ltb_ℤ (pos 0) reward
      then (if ltb_ℤ reward (pos 100)
          then (n, some bad_request)
          else let (l, e) =
              transfer_credits (uuid n.uuids) self "system_burn" (task_fee reward) "task_fee" ""
                n.ledger in
            let n' = record n { ledger = l; uuids = suc n.uuids } in
            elim e [ none ↦ (n', none) | some e ↦ (n', some (refusal e)) ])
      else (n, none)
    where
      refusal : StoreError → ℕ
      refusal insufficient_credits = bad_request
      refusal _ = internal_error

  -- `handleCreateTask`, from the task that the body was decoded to on.
  unfoldable pub handle_create_task : Option Task → Node → Node × ℕ
  handle_create_task none n = (n, bad_request)
  handle_create_task (some body) n =
      let t = record body { mode = if body.mode == "auction" then "auction" else "simple" } in
      if t.title == "" || ltb_ℤ t.reward (pos 0)
      then (n, bad_request)
      else let (n', refused) = charge_fee t.reward n in
        elim refused [
          | some code ↦ (n', code)
          | none ↦
              let (n'', (e, t')) = publish_task env t n' in
              elim e [
                | some _ ↦ (n'', internal_error)
                | none ↦
                    let n3 = (check_and_complete_milestone env "first_task_publish" n'').0 in
                    (record_event "task_published" self t'.id n3, ok)
              ]
        ]

  unfoldable pub handle_task_bid : String → Option TaskBid → Node → Node × ℕ
  handle_task_bid id body n =
      if is_bid_refused self (peek_task id n.store) then (n, forbidden) else elim body [
        | none ↦ (n, bad_request)
        | some b ↦
            let (n', e) = publish_task_bid env (record b { id = ""; task_id = id }) n in
            (n', elim e [ none ↦ ok | some _ ↦ internal_error ])
      ]

  unfoldable pub finish_assign : String → String → Node → Node
  finish_assign id assign_to n = recalc_active_tasks assign_to (republish env id n)

  unfoldable pub handle_task_assign : String → Option String → Node → Node × ℕ
  handle_task_assign id none n = (n, bad_request)
  handle_task_assign id (some assign_to) n =
      if assign_to == ""
      then (n, bad_request)
      else (if is_by assign_to (peek_task id n.store)
          then (n, forbidden)
          else answer n (assign_task id assign_to n.store) (finish_assign id assign_to))

  unfoldable pub handle_task_submit : String → Option String → Node → Node × ℕ
  handle_task_submit id none n = (n, bad_request)
  handle_task_submit id (some result) n =
      answer n (submit_task id result n.store) (republish env id)

  -- The prestige and the reputation of a worker whose work was approved.
  unfoldable pub credit_worker : Task → Node → Node
  credit_worker t n =
      let n = recalc_reputation t.assigned_to n in
      award_prestige env t.assigned_to (floats.decimal (pos 10) 0) (prestige_of t.author_id n) n

  -- What `handleTaskApprove` does between the two reads of the task.
  unfoldable pub settle_approved : String → Task → Node → Node
  settle_approved id t n =
      if t.assigned_to == t.author_id
      then unfreeze_reward t.author_id t.reward n
      else let paid =
          if ltb_ℤ (pos 0) t.reward && not (t.assigned_to == "")
          then pay env t.author_id t.assigned_to t.reward "task_reward" id
              (unfreeze_reward t.author_id t.reward n)
          else n in
        if t.assigned_to == "" then paid else credit_worker t paid

  -- What it does for the task that is stored in the end.
  unfoldable pub close_approved : String → Node → Node
  close_approved id n = elim (get_task id n.store) [
    | none ↦ n
    | some t ↦
        let n = record_event "task_approved" self id n in
        if t.assigned_to == ""
        then n
        else recalc_active_tasks t.assigned_to
            (auto_update_resume_skills env t.assigned_to t.tags n).0
  ]

  unfoldable pub finish_approve : String → Task → Node → Node
  finish_approve id t n = close_approved id (republish env id (settle_approved id t n))

  unfoldable pub handle_task_approve : String → Node → Node × ℕ
  handle_task_approve id n = elim (get_task id n.store) [
    | none ↦ (n, not_found)
    | some t ↦ answer n (approve_task id n.store) (finish_approve id t)
  ]

  unfoldable pub finish_reject : String → Task → Node → Node
  finish_reject id t n =
      let n = unfreeze_reward t.author_id t.reward n in
      republish env id (
        if t.assigned_to == ""
        then n
        else recalc_active_tasks t.assigned_to (recalc_reputation t.assigned_to n))

  unfoldable pub handle_task_reject : String → Node → Node × ℕ
  handle_task_reject id n = elim (get_task id n.store) [
    | none ↦ (n, not_found)
    | some t ↦ answer n (reject_task id n.store) (finish_reject id t)
  ]

  unfoldable pub finish_cancel : String → Task → Node → Node
  finish_cancel id t n = republish env id (unfreeze_reward t.author_id t.reward n)

  unfoldable pub handle_task_cancel : String → Node → Node × ℕ
  handle_task_cancel id n = elim (get_task id n.store) [
    | none ↦ (n, not_found)
    | some t ↦
        if t.author_id == self
        then answer n (cancel_task id n.store) (finish_cancel id t)
        else (n, forbidden)
  ]
