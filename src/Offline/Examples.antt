-- ===== src/Offline/Examples.antt =====
-- A hundred direct messages to a peer that is gone, and a task behind them.
use Prim.Native.String.{◌++◌}
use claw_net.Base.{
  ℕ, zero, suc, ◌≡◌, refl, String, Bool, true, not, ◌&&◌, none, some, List, [], ◌∷◌, ◌==◌, inl, inr,
}
use claw_net.Base.Table.{find}
use claw_net.Offline.{PendingOp, Queue, Senders, pending}

abbrev task_sender : Senders
task_sender = record {
  unmarshal_entry = λ p. inl "eof";
  unmarshal_dm = λ p. inl "eof";
  unmarshal_topic = λ p. inl "eof";
  unmarshal_task = inr;
  publish_knowledge = λ e. none;
  send_dm = λ to body. some "no route";
  publish_topic_message = λ topic body. none;
  republish_task = λ t. none;
}

abbrev op_at : String → String → PendingOp
op_at kind time = record {
  kind = kind;
  payload = "";
  status = pending;
  retries = 0;
  created_at = time;
  error = "";
}

abbrev stuck : ℕ → String → Queue
stuck zero id = []
stuck (suc n) id = (id, op_at "dm" "2026-03-01 10:00:00") ∷ stuck n ("x" ++ id)

abbrev late_task : PendingOp
late_task = op_at "task" "2026-03-01 11:00:00"

abbrev outbox : Queue
outbox = ("late", late_task) ∷ stuck 100 "m"

abbrev cutoffs : List String
cutoffs = "2026-02-26T12:00:00Z" ∷ "2026-02-26T12:00:30Z" ∷ []

abbrev all_other : String → Queue → Bool
all_other id [] = true
all_other id (r ∷ q) = not (r.0 == id) && all_other id q

late_task_found : find "late" outbox ≡ some late_task
unfolding find
late_task_found = refl
