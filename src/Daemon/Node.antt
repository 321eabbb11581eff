-- ===== src/Daemon/Node.antt =====
-- The state of a node, and the steps on it that the handlers of clawnet-cli/internal/daemon share:
-- payments, reputation, prestige, publication on the gossip topics, resumes and events.
use claw_net.Base.{
  ℕ, suc, String, Bool, true, false, ◌&&◌, ◌||◌, Option, none, some, List, ◌∷◌, if◌then◌else◌, ◌==◌,
  count,
}
use claw_net.Base.Int.{ℤ, pos, ltb_ℤ}
use claw_net.Base.Table.{Table, update}
use claw_net.Float.{Float64, Floats}
use claw_net.Credits.{Ledger, AuditRecord, transfer_credits, unfreeze_credits}
use claw_net.Credits.Prestige.{add_prestige, get_energy_profile}
use claw_net.Tasks.{
  Task, TaskBid, TaskSubmission, TaskStore, insert_task, is_assigned, is_submitted, get_task,
}
use claw_net.Tasks.Window.{Time}
use claw_net.Reputation.{ReputationRecord, recalc_record, upsert_reputation}

-- `AgentResume`, of clawnet-cli/internal/store/resume.go; the row's key is the peer id.
pub record AgentResume : Type 0 where
  pub agent_name : String
  pub skills : String
  pub data_sources : String
  pub description : String
  pub active_tasks : ℕ

-- What a node publishes on the topics for tasks and for credit audits.
pub data Message : Type 0 where
  task_msg : Task → Message
  bid_msg : TaskBid → Message
  update_msg : Task → Message
  submission_msg : TaskSubmission → Message
  audit_msg : String → AuditRecord → Message

pub record Event : Type 0 where
  pub kind : String
  pub actor : String
  pub subject : String

-- The database of a node, and what it has published, the latest first. Of the tables
-- swarm_contributions and knowledge only the column author_id is kept. Milestones and
-- achievements are pairs of their id and the peer's, the primary key. Of pending_ops the tasks that wait to be published are kept.
pub record Node : Type 0 where
  pub ledger : Ledger
  pub store : TaskStore
  pub reputation : Table ReputationRecord
  pub contributors : List String
  pub writers : List String
  pub resumes : Table AgentResume
  pub events : List Event
  pub milestones : List (String × String)
  pub achievements : List (String × String)
  pub pending_ops : List Task
  pub outbox : List Message
  pub uuids : ℕ

-- What a node takes from outside: its peer id, the clock, in whole seconds as its texts have it (also as the
-- text that time.Format makes), the generator of uuids, whether the network
-- takes a message, how long it has been up and how many peers it is connected to, encoding/json on
-- lists of texts, the calls of the package strings, and float64 arithmetic.
pub record Env : Type 0 where
  pub self : String
  pub now : Time
  pub now_text : String
  pub uuid : ℕ → String
  pub network : Message → Bool
  pub unmarshal : String → Option (List String)
  pub marshal : List String → String
  pub trim_space : String → String
  pub to_lower : String → String
  pub split_commas : String → List String
  pub uptime : ℤ
  pub connected : ℕ
  pub floats : Floats

module _ (env : Env) where
  open env use {now, now_text, uuid, network, floats}

  -- `Node.Publish`, with whether it failed.
  unfoldable pub publish : Message → Node → Node × Bool
  publish m n = if network m then (record n { outbox = m ∷ n.outbox }, true) else (n, false)

  unfoldable pub publish_credit_audit : String → String → String → String → ℤ → String → Node → Node
  unfolding publish
  publish_credit_audit txn task from to amount reason n =
      let entry : AuditRecord = record {
        task_id = task;
        from_peer = from;
        to_peer = to;
        amount = amount;
        reason = reason;
        event_time = now_text;
      } in
      (publish (audit_msg txn entry) n).0

  -- The three lines that pay a peer: a new uuid, the transfer, whose error is dropped, and the audit
  -- message, which goes out whether or not the transfer went through.
  unfoldable pub pay : String → String → ℤ → String → String → Node → Node
  unfolding publish_credit_audit
  pay from to amount reason task n =
      let txn = uuid n.uuids in
      publish_credit_audit txn task from to amount reason (record n {
        ledger = (transfer_credits txn from to amount reason task n.ledger).0;
        uuids = suc n.uuids;
      })

  -- `publishTaskUpdate`: the stored row is stored again, then published.
  unfoldable pub publish_task_update : Task → Node → Node
  unfolding publish
  publish_task_update t n =
      (publish (update_msg t) (record n { store = insert_task now t n.store })).0

  -- Reading a task back and publishing it, as most handlers do last.
  unfoldable pub republish : String → Node → Node
  unfolding publish_task_update
  republish id n = elim (get_task id n.store) [ none ↦ n | some t ↦ publish_task_update t n ]

  unfoldable pub award_prestige : String → Float64 → Float64 → Node → Node
  award_prestige peer amount evaluator n = record n {
    ledger = add_prestige floats peer amount evaluator n.ledger;
  }

unfoldable pub unfreeze_reward : String → ℤ → Node → Node
unfreeze_reward peer amount n =
    if ltb_ℤ (pos 0) amount then record n { ledger = unfreeze_credits peer amount n.ledger } else n

-- The prestige of the peer that judges the work, which is never missing.
abbrev pub prestige_of : String → Node → Float64
prestige_of peer n = (get_energy_profile peer n.ledger).prestige

unfoldable pub recalc_reputation : String → Node → Node
recalc_reputation peer n = record n {
  reputation =
      upsert_reputation peer (recalc_record peer n.store.tasks n.contributors n.writers)
        n.reputation;
}

-- `RecalcActiveTasks`, of clawnet-cli/internal/store/resume.go
unfoldable pub recalc_active_tasks : String → Node → Node
recalc_active_tasks peer n =
    let active =
      count (λ r. r.1.assigned_to == peer && (is_assigned r.1.status || is_submitted r.1.status))
        n.store.tasks in
    record n { resumes = update peer (λ r. record r { active_tasks = active }) n.resumes }

unfoldable pub record_event : String → String → String → Node → Node
record_event kind actor subject n =
    let entry : Event = record { kind = kind; actor = actor; subject = subject } in
    record n { events = entry ∷ n.events }
