-- ===== src/Daemon/Publishing.antt =====
-- The publication of tasks, bids and submissions: clawnet-cli/internal/daemon/phase2_gossip.go.
-- A publication that fails after its writes has made them: the error is a value beside the node.
pub mod Ledger
use claw_net.Base.{
  String, ◌==◌, suc, Bool, true, false, Option, none, some, List, [], ◌∷◌, if◌then◌else◌,
}
use claw_net.Base.Int.{ℤ, pos, ltb_ℤ, leb_ℤ}
use claw_net.Credits.{StoreError, freeze_credits}
use claw_net.Tasks.{Task, open_, TaskBid, TaskSubmission, insert_task, insert_task_bid}
use claw_net.Tasks.Submissions.{update_bid_close, insert_task_submission}
use claw_net.Tasks.Window.{compute_bid_close, compute_work_deadline}
use claw_net.Daemon.Node.{Node, Env, Message, task_msg, bid_msg, submission_msg, publish}

-- The errors that the publishing helpers return.
pub data PublishError : Type 0 where
  store_failed : StoreError → PublishError
  freeze_failed : StoreError → PublishError
  send_failed : PublishError

abbrev pub default_reward : ℤ
default_reward = pos 1

module _ (env : Env) where
  open env use {self, now, uuid}

  -- The id of something new: its own, or else the next uuid.
  abbrev new_id : String → Node → String
  new_id id n = if id == "" then uuid n.uuids else id

  abbrev count_id : String → Node → Node
  count_id id n = record n { uuids = if id == "" then suc n.uuids else n.uuids }

  -- What `publishTask` fills in.
  unfoldable pub filled : Task → Node → Task
  filled t n =
      let close = compute_bid_close now (pos 0) in
      record t {
        id = new_id t.id n;
        author_id = self;
        status = open_;
        created_at = now;
        mode = if t.mode == "" then "simple" else t.mode;
        reward = if leb_ℤ t.reward (pos 0) then default_reward else t.reward;
        bid_close_at = some close;
        work_deadline = some (compute_work_deadline close);
      }

  unfoldable pub send_task : Task → Node → Node × Option PublishError
  unfolding publish
  send_task t n =
      let (n', sent) = publish env (task_msg t) n in
      if sent
      then (n', none)
      else (record n' { pending_ops = t ∷ n'.pending_ops }, some send_failed)

  unfoldable pub freeze_reward : ℤ → Node → Node × Option StoreError
  freeze_reward reward n =
      if ltb_ℤ (pos 0) reward
      then (let (l, e) = freeze_credits self reward n.ledger in (record n { ledger = l }, e))
      else (n, none)

  unfoldable pub store_new : Task → Node → Node
  unfolding filled
  store_new t n =
      let n' = count_id t.id n in record n' { store = insert_task now (filled t n) n'.store }

  -- `publishTask`, with the task that the caller holds afterwards.
  unfoldable pub publish_task : Task → Node → Node × (Option PublishError × Task)
  unfolding filled
  publish_task t n =
      let f = filled t n in
      let (n', e) = freeze_reward f.reward (store_new t n) in
      elim e [
        | none ↦ let (n'', e') = send_task f n' in (n'', (e', f))
        | some e ↦ (n', (some (freeze_failed e), f))
      ]

  abbrev sent_or_failed : Node × Bool → Node × Option PublishError
  sent_or_failed (n, true) = (n, none)
  sent_or_failed (n, false) = (n, some send_failed)

  unfoldable pub publish_task_bid : TaskBid → Node → Node × Option PublishError
  unfolding publish
  publish_task_bid b n =
      let bid = record b { id = new_id b.id n; bidder_id = self } in
      let n' = count_id b.id n in
      let (s, e) = insert_task_bid bid n'.store in
      elim e [
        | some e ↦ (record n' { store = s }, some (store_failed e))
        | none ↦
            sent_or_failed
              (publish env (bid_msg bid) (record n' { store = update_bid_close bid.task_id s }))
      ]

  unfoldable pub publish_task_submission : TaskSubmission → Node → Node × Option PublishError
  unfolding publish
  publish_task_submission sub n =
      let sub' = record sub { id = new_id sub.id n; worker_id = self } in
      let n' = count_id sub.id n in
      let (s, e) = insert_task_submission sub' n'.store in
      elim e [
        | some e ↦ (record n' { store = s }, some (store_failed e))
        | none ↦ sent_or_failed (publish env (submission_msg sub') (record n' { store = s }))
      ]
