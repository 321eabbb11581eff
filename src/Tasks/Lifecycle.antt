-- ===== src/Tasks/Lifecycle.antt =====
-- The life of a task under the guarded updates of clawnet-cli/internal/store/tasks.go.
use claw_net.Base.{
  ℕ, ◌+◌, ◌≤◌, ◌<◌, String, Bool, true, false, Option, none, some, List, [], ◌∷◌, ◌≡◌, ◌⊎◌, inl,
  inr, refl, ◌∙◌, arith, Option-cases, Bool-cases, text_same, text_differs, ◌==◌, if◌then◌else◌,
  ◌&&◌,
}
use claw_net.Base.Table.{find, insert, find-insert_self, find-insert_ne}
use claw_net.Float.{Float64}
use claw_net.Credits.{StoreError, task_state_conflict}
use claw_net.Tasks.{
  Status, open_, assigned, submitted, approved, rejected, cancelled, settled, Task, TaskStore,
  change_task, assign_task, submit_task, approve_task, claim_task, reject_task, cancel_task,
  settle_task,
}

-- A call of one of the seven guarded updates.
pub data Move : Type 0 where
  assign : String → String → Move
  submit : String → String → Move
  approve reject cancel settle : String → Move
  claim : String → String → String → Float64 → Move

abbrev pub target : Move → String
target (assign id _) = id
target (submit id _) = id
target (approve id) = id
target (reject id) = id
target (cancel id) = id
target (settle id) = id
target (claim id _ _ _) = id

unfoldable pub move : Move → TaskStore → TaskStore × Option StoreError
move (assign id assignee) = assign_task id assignee
move (submit id result) = submit_task id result
move (approve id) = approve_task id
move (reject id) = reject_task id
move (cancel id) = cancel_task id
move (settle id) = settle_task id
move (claim id worker result eval) = claim_task id worker result eval

-- The steps of a task's status.
infix 40 ◌⟶◌
pub data ◌⟶◌ : Status → Status → Type 0 where
  assigns : open_ ⟶ assigned
  submits : assigned ⟶ submitted
  claims : open_ ⟶ submitted
  approves : submitted ⟶ approved
  rejects : submitted ⟶ rejected
  cancels_open : open_ ⟶ cancelled
  cancels_assigned : assigned ⟶ cancelled
  settles_open : open_ ⟶ settled
  settles_assigned : assigned ⟶ settled
  settles_submitted : submitted ⟶ settled

ruleset steps = (
  assigns, submits, claims, approves, rejects, cancels_open, cancels_assigned, settles_open,
  settles_assigned, settles_submitted,
)

-- What a successful move leaves of a task as it was: all but the status, the worker, the result and
-- the worker's own score.
abbrev pub SameOffer : Task → Task → Type 0
SameOffer t t' =
    (t'.id ≡ t.id)
    × (t'.author_id ≡ t.author_id)
    × (t'.reward ≡ t.reward)
    × (t'.mode ≡ t.mode)
    × (t'.target_peer ≡ t.target_peer)
    × (t'.created_at ≡ t.created_at)
    × (t'.work_deadline ≡ t.work_deadline)

-- What a call did: it was refused, or its task made a step and nothing else changed.
abbrev pub Moved : String → TaskStore → TaskStore × Option StoreError → Type 0
Moved id s r =
    (r ≡ (s, some task_state_conflict))
    ⊎ ((t : Task) × (t' : Task) × (find id s.tasks ≡ some t)
        × (t.status ⟶ t'.status)
        × SameOffer t t'
        × (r ≡ (record s { tasks = insert id t' s.tasks }, none)))

change_task-Moved :
    (id : String) (ready : Task → Bool) (change : Task → Task) (s : TaskStore)
    → ((t : Task) → ready t ≡ true → t.status ⟶ (change t).status)
    → ((t : Task) → SameOffer t (change t))
    → Moved id s (change_task id ready change s)
change_task-Moved id ready change s step same = elim (Option-cases (find id s.tasks)) [
  | inl e ↦ inl (ground arith)
  | inr (t, e) ↦ elim (Bool-cases (ready t)) [
    | inl go ↦ inr (t, change t, e, step t go, same t, ground arith)
    | inr stay ↦ inl (ground arith)
  ]
]

-- Every call is refused, or takes its task one step and leaves the rest of the store alone.
pub move-Moved : (m : Move) (s : TaskStore) → Moved (target m) s (move m s)
unfolding move assign_task submit_task approve_task claim_task reject_task cancel_task settle_task
move-Moved (assign id assignee) s =
    change_task-Moved id _ _ s (λ t h. grind (arith, steps))
      (λ t. (refl, refl, refl, refl, refl, refl, refl))
move-Moved (submit id result) s =
    change_task-Moved id _ _ s (λ t h. grind (arith, steps))
      (λ t. (refl, refl, refl, refl, refl, refl, refl))
move-Moved (approve id) s =
    change_task-Moved id _ _ s (λ t h. grind (arith, steps))
      (λ t. (refl, refl, refl, refl, refl, refl, refl))
move-Moved (reject id) s =
    change_task-Moved id _ _ s (λ t h. grind (arith, steps))
      (λ t. (refl, refl, refl, refl, refl, refl, refl))
move-Moved (cancel id) s =
    change_task-Moved id _ _ s (λ t h. grind (arith, steps))
      (λ t. (refl, refl, refl, refl, refl, refl, refl))
move-Moved (settle id) s =
    change_task-Moved id _ _ s (λ t h. grind (arith, steps))
      (λ t. (refl, refl, refl, refl, refl, refl, refl))
move-Moved (claim id worker result eval) s =
    change_task-Moved id _ _ s (λ t h. grind (arith, steps))
      (λ t. (refl, refl, refl, refl, refl, refl, refl))

-- How far a status is: each step goes further.
abbrev pub progress : Status → ℕ
progress open_ = 0
progress assigned = 1
progress submitted = 2
progress _ = 3

progress-⟶ : {a b : Status} → a ⟶ b → progress a < progress b
progress-⟶ assigns = omega arith
progress-⟶ submits = omega arith
progress-⟶ claims = omega arith
progress-⟶ approves = omega arith
progress-⟶ rejects = omega arith
progress-⟶ cancels_open = omega arith
progress-⟶ cancels_assigned = omega arith
progress-⟶ settles_open = omega arith
progress-⟶ settles_assigned = omega arith
progress-⟶ settles_submitted = omega arith

progress-le : (a : Status) → progress a ≤ 3
progress-le open_ = omega arith
progress-le assigned = omega arith
progress-le submitted = omega arith
progress-le _ = omega arith

abbrev pub IsFinal : Status → Type 0
IsFinal a = progress a ≡ 3

unfoldable pub moves : List Move → TaskStore → TaskStore
moves [] s = s
moves (m ∷ ms) s = moves ms (move m s).0

-- The calls of a run that took the task `id` a step.
abbrev pub is_done : Option StoreError → Bool
is_done none = true
is_done (some _) = false

abbrev pub steps_of : String → List Move → TaskStore → ℕ
steps_of id [] s = 0
steps_of id (m ∷ ms) s =
    (if target m == id && is_done (move m s).1 then 1 else 0) + steps_of id ms (move m s).0

-- The progress of a stored task; a task that is not there makes none.
abbrev pub progress_of : Option Task → ℕ
progress_of none = 0
progress_of (some t) = progress t.status

abbrev pub progress_in : String → TaskStore → ℕ
progress_in id s = progress_of (find id s.tasks)

step_counts :
    (id : String) (m : Move) (s : TaskStore)
    → (if target m == id && is_done (move m s).1 then 1 else 0) + progress_in id s
      ≤ progress_in id (move m s).0
step_counts id m s = elim (move-Moved m s) [
  | inl refused ↦ rw refused (ground arith)
  | inr (t, t', e, step, same, done) ↦ elim (Bool-cases (target m == id)) [
    | inl here ↦
        let same_task : target m ≡ id = text_same _ _ here in
        rw (done, here, ← same_task, progress_in, e, find-insert_self (target m) t' s.tasks)
          (omega (arith, progress-⟶ step))
    | inr there ↦
        rw (done, there, find-insert_ne (target m) id t' s.tasks (text_differs _ _ there))
          (omega arith)
  ]
]

moves_count :
    (id : String) (ms : List Move) (s : TaskStore)
    → steps_of id ms s + progress_in id s ≤ progress_in id (moves ms s)
unfolding moves
moves_count id [] s = omega arith
moves_count id (m ∷ ms) s = omega (arith, step_counts id m s, moves_count id ms (move m s).0)

progress_in-le : (id : String) (s : TaskStore) → progress_in id s ≤ 3
progress_in-le id s = elim (Option-cases (find id s.tasks)) [
  | inl e ↦ rw (e, progress_in) (omega arith)
  | inr (t, e) ↦ rw (e, progress_in) (progress-le t.status)
]

-- Whatever the calls, in whatever order, a task makes at most three steps in all.
pub steps_bounded : (id : String) (ms : List Move) (s : TaskStore) → steps_of id ms s ≤ 3
steps_bounded id ms s = omega (arith, moves_count id ms s, progress_in-le id (moves ms s))

final_no_step : {a b : Status} → IsFinal a → a ⟶ b → ⊥
final_no_step f st = omega (arith, progress-⟶ st, progress-le _)

final_stays :
    (id : String) (m : Move) (s : TaskStore) (t : Task)
    → find id s.tasks ≡ some t
    → IsFinal t.status
    → find id (move m s).0.tasks ≡ some t
final_stays id m s t e f = elim (move-Moved m s) [
  | inl refused ↦ rw refused e
  | inr (u, u', eu, step, same, done) ↦ elim (Bool-cases (target m == id)) [
    | inl here ↦
        let same_task : target m ≡ id = text_same _ _ here in
        let same_row : u ≡ t = ground arith in absurd (final_no_step (rw same_row f) step)
    | inr there ↦ rw done (find-insert_ne (target m) id u' s.tasks (text_differs _ _ there) ∙ e)
  ]
]

-- Under any sequence of the seven calls that move a task by an UPDATE with a condition on its status
-- (assigning, submitting, approving, claiming, rejecting, cancelling, settling), an approved, rejected,
-- cancelled or settled task stays exactly as it is. InsertTask, which writes any status over a stored task, is
-- not among them.
pub final_absorbs :
    (id : String) (ms : List Move) (s : TaskStore) {t : Task}
    → find id s.tasks ≡ some t
    → IsFinal t.status
    → find id (moves ms s).tasks ≡ some t
unfolding moves
final_absorbs id [] s e f = e
final_absorbs id (m ∷ ms) s {t} e f = final_absorbs id ms (move m s).0 (final_stays id m s t e f) f
