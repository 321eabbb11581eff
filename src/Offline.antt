-- ===== src/Offline.antt =====
-- The queue of operations that wait for the network: clawnet-cli/internal/store/offline.go, and its loop,
-- clawnet-cli/internal/daemon/offline.go. A time is the text that the database holds.
use Prim.Native.String.{compare, ◌++◌}
use Prim.Native.Nat.{Ordering}
use claw_net.Base.{
  ℕ, zero, suc, ◌+◌, String, Bool, true, false, not, ◌&&◌, Option, none, some, List, [], ◌∷◌, map,
  take, select, leb, length, ◌==ℕ◌, ◌⊎◌, inl, inr, if◌then◌else◌, ◌==◌,
}
use claw_net.Base.Table.{Table, insert, contains, update}
use claw_net.Base.Rows.{edit}
pub mod Order
pub mod Blocked
mod Examples

pub data OpStatus : Type 0 where
  pending sent failed : OpStatus

-- `PendingOp`; the row's key is the id.
pub record PendingOp : Type 0 where
  pub kind : String
  pub payload : String
  pub status : OpStatus
  pub retries : ℕ
  pub created_at : String
  pub error : String

abbrev pub Queue : Type 0
Queue = Table PendingOp

-- The id is a new uuid; an INSERT with a used id fails.
unfoldable pub queue_pending_op : String → String → String → String → Queue → Queue
queue_pending_op id kind payload now q =
    if contains id q
    then q
    else insert id
        (record {
          kind = kind;
          payload = payload;
          status = pending;
          retries = 0;
          created_at = now;
          error = "";
        })
        q

abbrev pub is_pending : OpStatus → Bool
is_pending pending = true
is_pending _ = false

abbrev pub text_lt : String → String → Bool
text_lt a b = elim (compare a b) [ Ordering.lt ↦ true | _ ↦ false ]

-- ORDER BY created_at ASC, rows with the same time in the order of the table.
abbrev pub insert_by_time : String × PendingOp → Queue → Queue
insert_by_time r [] = r ∷ []
insert_by_time r (s ∷ q) =
    let later = s ∷ insert_by_time r q in
    if text_lt s.1.created_at r.1.created_at then later else r ∷ s ∷ q

abbrev pub by_time : Queue → Queue
by_time [] = []
by_time (r ∷ q) = insert_by_time r (by_time q)

unfoldable pub list_pending_ops : Queue → Queue
list_pending_ops q = take 100 (by_time (select (λ r. is_pending r.1.status) q))

abbrev pub set_sent : PendingOp → PendingOp
set_sent op = record op { status = sent }

abbrev pub set_failed : String → PendingOp → PendingOp
set_failed message op = record op { retries = op.retries + 1; error = message }

unfoldable pub mark_pending_op_sent : String → Queue → Queue
mark_pending_op_sent id q = update id set_sent q

unfoldable pub mark_pending_op_failed : String → String → Queue → Queue
mark_pending_op_failed id message q = update id (set_failed message) q

unfoldable pub pending_op_count : Queue → ℕ
pending_op_count q = length (select (λ r. is_pending r.1.status) q)

abbrev pub kept_by_age : String → PendingOp → Option PendingOp
kept_by_age cutoff op = if text_lt op.created_at cutoff then none else some op

abbrev pub kept_as : OpStatus → String → PendingOp → Option PendingOp
kept_as sent cutoff op = none
kept_as failed cutoff op = if leb 10 op.retries then none else kept_by_age cutoff op
kept_as pending cutoff op = kept_by_age cutoff op

-- The rows that the three DELETE statements leave.
abbrev pub kept : String → PendingOp → Option PendingOp
kept cutoff op = kept_as op.status cutoff op

unfoldable pub prune_old_pending_ops : String → Queue → Queue
prune_old_pending_ops cutoff q = edit (λ id op. kept cutoff op) q

pub record DmPayload : Type 0 where
  pub peer_id : String
  pub body : String

pub record TopicPayload : Type 0 where
  pub topic : String
  pub body : String

-- What `replayOp` calls: encoding/json on each kind of payload, where entries of knowledge and tasks are kept as a
-- text, each with its error or what it reads, and the functions that send, each with its error if it fails.
pub record Senders : Type 0 where
  pub unmarshal_entry : String → String ⊎ String
  pub unmarshal_dm : String → String ⊎ DmPayload
  pub unmarshal_topic : String → String ⊎ TopicPayload
  pub unmarshal_task : String → String ⊎ String
  pub publish_knowledge : String → Option String
  pub send_dm : String → String → Option String
  pub publish_topic_message : String → String → Option String
  pub republish_task : String → Option String

-- The error, if there is one.
unfoldable pub replay_op : Senders → PendingOp → Option String
replay_op s op =
    if op.kind == "knowledge"
    then (elim (s.unmarshal_entry op.payload) [
      | inl e ↦ some ("unmarshal knowledge: " ++ e)
      | inr entry ↦ s.publish_knowledge entry
    ])
    else if op.kind == "dm"
    then (elim (s.unmarshal_dm op.payload) [
      | inl e ↦ some ("unmarshal dm: " ++ e)
      | inr m ↦ s.send_dm m.peer_id m.body
    ])
    else if op.kind == "topic_message"
    then (elim (s.unmarshal_topic op.payload) [
      | inl e ↦ some ("unmarshal topic_message: " ++ e)
      | inr m ↦ s.publish_topic_message m.topic m.body
    ])
    else if op.kind == "task"
    then (elim (s.unmarshal_task op.payload) [
      | inl e ↦ some ("unmarshal task: " ++ e)
      | inr t ↦ s.republish_task t
    ])
    else some ("unknown op type: " ++ op.kind)

module _ (s : Senders) where
  abbrev pub replay_row : String × PendingOp → Queue → Queue
  replay_row (id, op) q = elim (replay_op s op) [
    | none ↦ mark_pending_op_sent id q
    | some message ↦ mark_pending_op_failed id message q
  ]

  -- The loop, from the i-th operation on, with whether it came to its end; `cancelled` is what ctx.Err() says before each.
  abbrev pub replay_each : (ℕ → Bool) → ℕ → Queue → Queue → Queue × Bool
  replay_each cancelled i [] q = (q, true)
  replay_each cancelled i (r ∷ rs) q =
      let rest = replay_each cancelled (i + 1) rs (replay_row r q) in
      if cancelled i then (q, false) else rest

  unfoldable pub process_pending_ops : ℕ → (ℕ → Bool) → String → Queue → Queue
  unfolding list_pending_ops mark_pending_op_sent mark_pending_op_failed prune_old_pending_ops
      replay_op
  process_pending_ops peers cancelled cutoff q =
      let ops = list_pending_ops q in
      let (q', done) = replay_each cancelled 0 ops q in
      if peers ==ℕ 0
      then q
      else if length ops ==ℕ 0
      then q
      else if done
      then prune_old_pending_ops cutoff q'
      else q'
