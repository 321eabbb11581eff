-- ===== src/Tasks/Submissions.antt =====
-- Submissions of work, the bidding window of a stored task, and the tasks that wait to be settled:
-- clawnet-cli/internal/store/tasks.go, `InsertTaskSubmission` to `ListExpiredNoSubmissionTasks`.
use claw_net.Base.{
  ℕ, String, Bool, true, false, not, ◌&&◌, Option, none, some, List, [], ◌∷◌, if◌then◌else◌, ◌==◌,
  select, length, read_all,
}
use claw_net.Base.Int.{pos, leb_ℤ, is_scanned}
use claw_net.Base.Table.{find, insert, update, contains}
use claw_net.Credits.{StoreError, constraint_failed}
use claw_net.Tasks.Window.{Time, compute_bid_close, compute_work_deadline}
use claw_net.Tasks.{Task, TaskSubmission, TaskStore, rows, is_open, get_task, list_task_bids}

-- A second submission under an id replaces the result; a new one must be for a stored task.
unfoldable pub insert_task_submission : TaskSubmission → TaskStore → TaskStore × Option StoreError
insert_task_submission sub s = elim (find sub.id s.submissions) [
  | some old ↦ (
    record s { submissions = insert sub.id (record old { result = sub.result }) s.submissions },
    none,
  )
  | none ↦
      if contains sub.task_id s.tasks
      then (
        record s { submissions = insert sub.id (record sub { is_winner = false }) s.submissions },
        none,
      )
      else (s, some constraint_failed)
]

unfoldable pub list_task_submissions : String → TaskStore → List TaskSubmission
list_task_submissions task s = select (λ sub. sub.task_id == task) (rows s.submissions)

unfoldable pub count_task_submissions : String → TaskStore → ℕ
unfolding list_task_submissions
count_task_submissions task s = length (list_task_submissions task s)

unfoldable pub mark_winner : String → TaskStore → TaskStore
mark_winner id s = record s {
  submissions = update id (λ sub. record sub { is_winner = true }) s.submissions;
}

-- `UpdateBidClose`; created_at is a column that the database wrote, so it parses.
unfoldable pub update_bid_close : String → TaskStore → TaskStore
update_bid_close id s = elim (get_task id s) [
  | none ↦ s
  | some t ↦ elim (list_task_bids id s) [
    | none ↦ s
    | some bids ↦
        let close = compute_bid_close t.created_at (pos (length bids)) in
        let work = compute_work_deadline close in
        record s {
          tasks =
              insert id (record t { bid_close_at = some close; work_deadline = some work }) s.tasks;
        }
  ]
]

abbrev has_passed : Time → Option Time → Bool
has_passed now none = false
has_passed now (some t) = leb_ℤ t now

abbrev is_empty {ℓ} : {A : Type ℓ} → List A → Bool
is_empty [] = true
is_empty (_ ∷ _) = false

-- none where the reward of one of them is not read.
unfoldable pub list_settleable_tasks : Time → TaskStore → Option (List Task)
unfolding list_task_submissions
list_settleable_tasks now s =
    read_all (λ t. is_scanned t.reward)
      (select
        (λ t.
          is_open t.status
          && has_passed now t.work_deadline
          && not (is_empty (list_task_submissions t.id s)))
        (rows s.tasks))

-- `ListExpiredNoSubmissionTasks`, of which the caller reads the id, the author and the reward.
unfoldable pub list_expired_no_submission_tasks : Time → TaskStore → Option (List Task)
unfolding list_task_submissions
list_expired_no_submission_tasks now s =
    read_all (λ t. is_scanned t.reward)
      (select
        (λ t.
          is_open t.status
          && has_passed now t.work_deadline
          && is_empty (list_task_submissions t.id s))
        (rows s.tasks))
