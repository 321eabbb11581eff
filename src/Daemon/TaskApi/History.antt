-- ===== src/Daemon/TaskApi/History.antt =====
-- Any history of requests to the handlers of clawnet-cli/internal/daemon/phase2_api.go for tasks, with
-- messages of other nodes, automatic approvals and rounds of automatic settlement in between.
use claw_net.Base.{String, Option, List, [], ◌∷◌, ◌≡◌, refl, ◌∙◌, All}
use claw_net.Float.{Float64}
use claw_net.Credits.{Ledger}
use claw_net.Credits.Supply.{supply}
use claw_net.Credits.Soundness.{LedgerIsSound}
use claw_net.Tasks.{Task, TaskBid}
use claw_net.Daemon.Node.{Node, Env, Message}
use claw_net.Daemon.Gossip.{receive_task_message, auto_approve_simple_task}
use claw_net.Daemon.Gossip.Supply.{receive_task_message-ledger, auto_approve_simple_task-Kept}
use claw_net.Daemon.Kept.{IsKept, supply-IsKept, soundness-IsKept}
use claw_net.Daemon.Settler.{auto_settle_tasks}
use claw_net.Daemon.Settler.Supply.{auto_settle_tasks-Kept}
use claw_net.Daemon.TaskApi.{
  handle_create_task, handle_task_bid, handle_task_assign, handle_task_submit, handle_task_approve,
  handle_task_reject, handle_task_cancel,
}
use claw_net.Daemon.TaskApi.Claims.{
  handle_task_claim, handle_task_submit_work, handle_task_pick_winner,
}
use claw_net.Daemon.TaskApi.Creation.{handle_create_task-Kept}
use claw_net.Daemon.TaskApi.Answers.{
  handle_task_bid-Kept, handle_task_assign-Kept, handle_task_submit-Kept, handle_task_approve-Kept,
  handle_task_reject-Kept, handle_task_cancel-Kept,
}
use claw_net.Daemon.TaskApi.Work.{
  handle_task_pick_winner-Kept, handle_task_claim-Kept, handle_task_submit_work-Kept,
}
use claw_net.Daemon.TaskApi.Creation.{BodyFits}

-- A request that changes state, a message on the topic for tasks with its sender, an automatic approval,
-- or the tick of the settler's timer.
pub data Request : Type 0 where
  create : Option Task → Request
  bid : String → Option TaskBid → Request
  assign : String → Option String → Request
  submit : String → Option String → Request
  approve reject cancel : String → Request
  claim : String → Option (String × Float64) → Request
  submit_work : String → Option String → Request
  pick_winner : String → Option String → Request
  receive : String → Message → Request
  auto_approve : String → Request
  settle_round : Request

unfoldable pub handle : Env → Request → Node → Node
handle env (Request.create body) n = (handle_create_task env body n).0
handle env (Request.bid id body) n = (handle_task_bid env id body n).0
handle env (Request.assign id body) n = (handle_task_assign env id body n).0
handle env (Request.submit id body) n = (handle_task_submit env id body n).0
handle env (Request.approve id) n = (handle_task_approve env id n).0
handle env (Request.reject id) n = (handle_task_reject env id n).0
handle env (Request.cancel id) n = (handle_task_cancel env id n).0
handle env (Request.claim id body) n = (handle_task_claim env id body n).0
handle env (Request.submit_work id body) n = (handle_task_submit_work env id body n).0
handle env (Request.pick_winner id body) n = (handle_task_pick_winner env id body n).0
handle env (Request.receive sender m) n = (receive_task_message env sender m n).0
handle env (Request.auto_approve id) n = auto_approve_simple_task env id n
handle env Request.settle_round n = auto_settle_tasks env n

-- The clock and the network may be others at each request.
unfoldable pub history : List (Env × Request) → Node → Node
unfolding handle
history [] n = n
history ((env, r) ∷ rs) n = history rs (handle env r n)

-- Only a posted reward can be too large for its fee.
abbrev pub Fits : Env × Request → Type 0
Fits (_, Request.create body) = BodyFits body
Fits _ = Unit

module _ (env : Env) (P : Ledger → Type 0) (kept : IsKept env.floats P) where
  pub handle-Kept :
      (r : Request) (n : Node) → Fits (env, r) → P n.ledger → P (handle env r n).ledger
  unfolding handle
  handle-Kept (Request.create body) n fits p = handle_create_task-Kept env P kept body n fits p
  handle-Kept (Request.bid id body) n fits p = handle_task_bid-Kept env P kept id body n p
  handle-Kept (Request.assign id body) n fits p = handle_task_assign-Kept env P kept id body n p
  handle-Kept (Request.submit id body) n fits p = handle_task_submit-Kept env P kept id body n p
  handle-Kept (Request.approve id) n fits p = handle_task_approve-Kept env P kept id n p
  handle-Kept (Request.reject id) n fits p = handle_task_reject-Kept env P kept id n p
  handle-Kept (Request.cancel id) n fits p = handle_task_cancel-Kept env P kept id n p
  handle-Kept (Request.claim id body) n fits p = handle_task_claim-Kept env P kept id body n p
  handle-Kept (Request.submit_work id body) n fits p =
      handle_task_submit_work-Kept env P kept id body n p
  handle-Kept (Request.pick_winner id body) n fits p =
      handle_task_pick_winner-Kept env P kept id body n p
  handle-Kept (Request.receive sender m) n fits p =
      rw (receive_task_message-ledger env sender m n) p
  handle-Kept (Request.auto_approve id) n fits p = auto_approve_simple_task-Kept env P kept id n p
  handle-Kept Request.settle_round n fits p = auto_settle_tasks-Kept env P kept n p

-- Start from a node whose accounts are sound, and let come any requests to its task handlers, messages on the
-- task topic, automatic approvals and rounds of settlement, in any order, whether they are refused or fail
-- half-way. As long as no posted reward is so large that its fee overflows, the sum of what all accounts have
-- available and frozen, the fees on system_burn among it, stays the same, and the accounts stay sound. Messages
-- of the credit topic, the topology game and the prediction market are not among these steps.
pub history_keeps :
    (rs : List (Env × Request)) (n : Node)
    → All Fits rs
    → LedgerIsSound n.ledger
    → (supply (history rs n).ledger ≡ supply n.ledger) × LedgerIsSound (history rs n).ledger
unfolding history
history_keeps [] n fits s = (refl, s)
history_keeps ((env, r) ∷ rs) n (f, fs) s =
    let rest =
      history_keeps rs (handle env r n) fs
        (handle-Kept env LedgerIsSound (soundness-IsKept env.floats) r n f s) in
    (
      rest.0
          ∙ handle-Kept env (λ l. supply l ≡ supply n.ledger)
              (supply-IsKept env.floats (supply n.ledger)) r n f refl,
      rest.1,
    )
