-- ===== src/Tasks/Upsert.antt =====
-- What a gossiped copy of a task can and cannot change: `InsertTask` of
-- clawnet-cli/internal/store/tasks.go on a task that is stored.
use claw_net.Base.{
  String, Bool, true, false, Option, none, some, ◌≡◌, ◌≢◌, inl, inr, refl, arith, Bool-cases,
  text_differs, ◌==◌, if◌then◌else◌,
}
use claw_net.Base.Table.{find, find-insert_self, find-insert_ne, insert-find}
use claw_net.Float.{Float64}
use claw_net.Tasks.Window.{Time}
use claw_net.Tasks.{Task, TaskStore, keep_text, keep_time, merge_task, insert_task}

keep_text_same : (x : String) → keep_text x x ≡ x
keep_text_same x = ground arith

keep_time_same : (x : Option Time) → keep_time x x ≡ x
keep_time_same none = refl
keep_time_same (some t) = refl

choose_same : (b : Bool) (x : Float64) → (if b then x else x) ≡ x
choose_same true x = refl
choose_same false x = refl

merge_task_same : (t : Task) → merge_task t t ≡ t
unfolding merge_task
merge_task_same t = simp (keep_text_same, keep_time_same, choose_same)

-- Storing again the row that is stored, as every publication of an update does, changes nothing.
pub insert_task_again :
    (now : Time) (t : Task) (s : TaskStore) → find t.id s.tasks ≡ some t → insert_task now t s ≡ s
unfolding insert_task
insert_task_again now t s e = ground (arith, merge_task_same t, insert-find t.id t s.tasks)

keep_text_kept : (new old : String) → old ≢ "" → keep_text new old ≢ ""
keep_text_kept new old h = elim (Bool-cases (new == "")) [
  | inl e ↦ rw e h
  | inr e ↦ rw e (λ q. absurd (text_differs new "" e q))
]

-- Where a task is stored under its id, a copy of it never changes its author or its creation time, never unsets its worker or
-- its result, and touches no other task.
pub insert_task_keeps :
    (now : Time) (t old : Task) (s : TaskStore)
    → find t.id s.tasks ≡ some old
    → (new : Task) × (find t.id (insert_task now t s).tasks ≡ some new)
      × (new.author_id ≡ old.author_id)
      × (new.created_at ≡ old.created_at)
      × (old.assigned_to ≢ "" → new.assigned_to ≢ "")
      × (old.result ≢ "" → new.result ≢ "")
      × ((k : String) → t.id ≢ k → find k (insert_task now t s).tasks ≡ find k s.tasks)
unfolding insert_task merge_task
insert_task_keeps now t old s e = (
  merge_task t old,
  rw (e, insert_task) (find-insert_self t.id (merge_task t old) s.tasks),
  refl,
  refl,
  keep_text_kept t.assigned_to old.assigned_to,
  keep_text_kept t.result old.result,
  λ k ne. rw (e, insert_task) (find-insert_ne t.id k (merge_task t old) s.tasks ne),
)
