-- ===== src/Tasks.antt =====
-- The task store: clawnet-cli/internal/store/tasks.go, over the tables tasks, task_bids and
-- task_submissions of clawnet-cli/internal/store/store.go.
--
-- Each method returns the new tables and its error. A status is one of the seven that the CHECK
-- constraint of tasks allows, so a write of another one, which the constraint refuses, cannot be
-- written down. An empty deadline column is `none`; a deadline that is set compares as a time, which
-- the order of RFC 3339 texts in UTC agrees with. The updated_at columns are not modelled: nothing
-- reads them. Rows stand in insertion order, which is also their order by created_at.
pub mod Window
pub mod Submissions
pub mod Earnings
pub mod Lifecycle
pub mod Upsert
pub mod Examples
use claw_net.Base.{
  ℕ, String, Bool, true, false, not, ◌&&◌, ◌||◌, Option, none, some, List, [], ◌∷◌, map,
  if◌then◌else◌, ◌==◌, select, length, read_all, Option-cases, Bool-cases, inl, inr, ◌≡◌, ◌∙◌, refl,
  sym, ap, arith,
}
use claw_net.Base.Int.{ℤ, pos, leb_ℤ, is_scanned}
use claw_net.Base.Table.{Table, find, insert, update, contains}
use claw_net.Float.{Float64, zero64, less}
use claw_net.Credits.{StoreError, constraint_failed, task_state_conflict}
use claw_net.Tasks.Window.{Time, compute_bid_close, compute_work_deadline}

pub data Status : Type 0 where
  open_ assigned submitted approved rejected cancelled settled : Status

-- `Task`; AuthorName and UpdatedAt are for display.
pub record Task : Type 0 where
  pub id : String
  pub author_id : String
  pub title : String
  pub description : String
  pub tags : String
  pub deadline : String
  pub reward : ℤ
  pub status : Status
  pub assigned_to : String
  pub result : String
  pub target_peer : String
  pub bid_close_at : Option Time
  pub work_deadline : Option Time
  pub mode : String
  pub self_eval_score : Float64
  pub created_at : Time
  pub nutshell_hash : String
  pub nutshell_id : String
  pub bundle_type : String

-- `TaskBid`
pub record TaskBid : Type 0 where
  pub id : String
  pub task_id : String
  pub bidder_id : String
  pub amount : ℤ
  pub message : String

-- `TaskSubmission`
pub record TaskSubmission : Type 0 where
  pub id : String
  pub task_id : String
  pub worker_id : String
  pub result : String
  pub is_winner : Bool

pub record TaskStore : Type 0 where
  pub tasks : Table Task
  pub bids : Table TaskBid
  pub submissions : Table TaskSubmission

-- COALESCE(NULLIF(excluded.c, ''), tasks.c)
abbrev keep_text : String → String → String
keep_text new old = if new == "" then old else new

abbrev keep_time : Option Time → Option Time → Option Time
keep_time none old = old
keep_time (some t) old = some t

-- ON CONFLICT(id) DO UPDATE: the author, and when the row was made, stay.
unfoldable pub merge_task : Task → Task → Task
merge_task new old = record old {
  title = new.title;
  description = new.description;
  tags = new.tags;
  deadline = new.deadline;
  reward = new.reward;
  status = new.status;
  assigned_to = keep_text new.assigned_to old.assigned_to;
  result = keep_text new.result old.result;
  target_peer = new.target_peer;
  nutshell_hash = new.nutshell_hash;
  nutshell_id = new.nutshell_id;
  bundle_type = new.bundle_type;
  bid_close_at = keep_time new.bid_close_at old.bid_close_at;
  work_deadline = keep_time new.work_deadline old.work_deadline;
  mode = keep_text new.mode old.mode;
  self_eval_score =
      if less zero64 new.self_eval_score then new.self_eval_score else old.self_eval_score;
}

-- The INSERT does not name created_at, so a new row gets the local clock's time, `now`.
unfoldable pub insert_task : Time → Task → TaskStore → TaskStore
insert_task now t s = record s {
  tasks = elim (find t.id s.tasks) [
    | none ↦ insert t.id (record t { created_at = now }) s.tasks
    | some old ↦ insert t.id (merge_task t old) s.tasks
  ];
}

-- `GetTask`, for a caller that looks at the error: none for a task that is not there and for one whose reward is not
-- read.
abbrev scanned_task : Option Task → Option Task
scanned_task none = none
scanned_task (some t) = if is_scanned t.reward then some t else none

unfoldable pub get_task : String → TaskStore → Option Task
get_task id s = scanned_task (find id s.tasks)

-- Scan fills the columns in their order up to the reward. The status and the time of its
-- making are empty too, which nothing reads: publishing it fails at the CHECK on the status.
abbrev half_read : Task → Task
half_read t = record t {
  reward = pos 0;
  assigned_to = "";
  result = "";
  target_peer = "";
  nutshell_hash = "";
  nutshell_id = "";
  bundle_type = "";
  bid_close_at = none;
  work_deadline = none;
  mode = "";
  self_eval_score = zero64;
}

-- `GetTask`, for a caller that drops the error.
unfoldable pub peek_task : String → TaskStore → Option Task
peek_task id s = elim (find id s.tasks) [
  | none ↦ none
  | some t ↦ some (if is_scanned t.reward then t else half_read t)
]

scanned_task-some :
    (o : Option Task) {t : Task}
    → scanned_task o ≡ some t
    → (o ≡ some t) × (is_scanned t.reward ≡ true)
scanned_task-some none h = absurd (ground arith)
scanned_task-some (some u) {t} h = elim (Bool-cases (is_scanned u.reward)) [
  | inl r ↦
      let found : some u ≡ some t = rw r at h in
      let same : u ≡ t = cc found in (found, ap (λ (x : Task). is_scanned x.reward) (sym same) ∙ r)
  | inr r ↦ let nothing : none ≡ some t = rw r at h in absurd (ground (arith, nothing))
]

pub get_task-find :
    (id : String) (s : TaskStore) {t : Task}
    → get_task id s ≡ some t
    → (find id s.tasks ≡ some t) × (is_scanned t.reward ≡ true)
unfolding get_task
get_task-find id s h = scanned_task-some (find id s.tasks) h

pub find-get_task :
    (id : String) (s : TaskStore) {t : Task}
    → find id s.tasks ≡ some t
    → is_scanned t.reward ≡ true
    → get_task id s ≡ some t
unfolding get_task
find-get_task id s {t} e r =
    let read : scanned_task (some t) ≡ some t = rw r refl in ap scanned_task e ∙ read

-- A bid that is stored already is left alone; a new one must be for a stored task (a foreign key).
unfoldable pub insert_task_bid : TaskBid → TaskStore → TaskStore × Option StoreError
insert_task_bid b s =
    if contains b.id s.bids
    then (s, none)
    else (if contains b.task_id s.tasks
        then (record s { bids = insert b.id b s.bids }, none)
        else (s, some constraint_failed))

-- The values of a table's rows.
abbrev rows {ℓ} : {V : Type ℓ} → Table V → List V
rows t = map (λ r. r.1) t

-- none where an amount is not read.
unfoldable pub list_task_bids : String → TaskStore → Option (List TaskBid)
list_task_bids task s =
    read_all (λ b. is_scanned b.amount) (select (λ b. b.task_id == task) (rows s.bids))

-- UPDATE tasks SET ... WHERE id = ? AND ..., and the conflict that is reported for no affected row.
abbrev pub change_task :
    String → (Task → Bool) → (Task → Task) → TaskStore → TaskStore × Option StoreError
change_task id ready change s = elim (find id s.tasks) [
  | none ↦ (s, some task_state_conflict)
  | some t ↦
      if ready t
      then (record s { tasks = insert id (change t) s.tasks }, none)
      else (s, some task_state_conflict)
]

abbrev pub is_open : Status → Bool
is_open open_ = true
is_open _ = false

abbrev pub is_assigned : Status → Bool
is_assigned assigned = true
is_assigned _ = false

abbrev pub is_submitted : Status → Bool
is_submitted submitted = true
is_submitted _ = false

unfoldable pub assign_task : String → String → TaskStore → TaskStore × Option StoreError
assign_task id assignee =
    change_task id (λ t. is_open t.status)
      (λ t. record t { status = assigned; assigned_to = assignee })

unfoldable pub submit_task : String → String → TaskStore → TaskStore × Option StoreError
submit_task id result =
    change_task id (λ t. is_assigned t.status)
      (λ t. record t { status = submitted; result = result })

unfoldable pub approve_task : String → TaskStore → TaskStore × Option StoreError
approve_task id = change_task id (λ t. is_submitted t.status) (λ t. record t { status = approved })

unfoldable pub claim_task :
    String → String → String → Float64 → TaskStore → TaskStore × Option StoreError
claim_task id worker result self_eval =
    change_task id (λ t. t.mode == "simple" && is_open t.status)
      (λ t. record t {
        status = submitted;
        assigned_to = worker;
        result = result;
        self_eval_score = self_eval;
      })

unfoldable pub reject_task : String → TaskStore → TaskStore × Option StoreError
reject_task id = change_task id (λ t. is_submitted t.status) (λ t. record t { status = rejected })

unfoldable pub cancel_task : String → TaskStore → TaskStore × Option StoreError
cancel_task id =
    change_task id (λ t. is_open t.status || is_assigned t.status)
      (λ t. record t { status = cancelled })

unfoldable pub settle_task : String → TaskStore → TaskStore × Option StoreError
settle_task id =
    change_task id (λ t. is_open t.status || is_assigned t.status || is_submitted t.status)
      (λ t. record t { status = settled })
