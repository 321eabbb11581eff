-- ===== src/Daemon/Examples.antt =====
-- The daemon on small data.
use claw_net.Base.{
  ℕ, ◌+◌, ◌*◌, ◌-◌, String, true, false, none, some, [], ◌∷◌, ◌≡◌, refl, arith, if◌then◌else◌,
  ◌==ℕ◌,
}
use claw_net.Base.Int.{pos, ◌+ℤ◌, ◌≤ℤ◌, negsuc, wrap64, quot, ◌*ℤ◌, ◌-ℤ◌}
use claw_net.Base.Table.{find, insert}
use claw_net.Float.{Floats, less}
use claw_net.Credits.{Account, Ledger, opened, StoreError, transfer_credits, unfreeze_credits}
use claw_net.Credits.Prestige.{add_prestige}
use claw_net.Tasks.Window.{share}
use claw_net.Credits.Supply.{supply}
use claw_net.Credits.Soundness.{LedgerIsSound}
use claw_net.Credits.Balances.{balance_of}
use claw_net.Tasks.{Task, Status, open_, submitted, approved, settled, TaskSubmission}
use claw_net.Tasks.Submissions.{mark_winner}
use claw_net.Tasks.Examples.{sample}
use claw_net.Daemon.Node.{
  Node, Env, pay, unfreeze_reward, publish, publish_credit_audit, award_prestige, recalc_reputation,
  republish, publish_task_update,
}
use claw_net.Daemon.Milestones.{check_and_complete_milestone}
use claw_net.Daemon.Milestones.Funding.{milestone_unpaid, milestone_once}
use claw_net.Daemon.Settler.{
  settle_task, pay_submissions, pay_submission, distribute, consolation_each, reward_prestige,
  console_prestige, auto_settle_tasks,
}
use claw_net.Daemon.Settler.Supply.{auto_settle_tasks_keeps}
use claw_net.Daemon.Settler.Payouts.{settle_task_covers}
use claw_net.Daemon.Settler.Closing.{settle_task_closes}
use claw_net.Daemon.TaskApi.{task_fee}
use claw_net.Credits.{AuditRecord}
use claw_net.Tasks.{cancelled}
use claw_net.Base.Table.{Table}
use claw_net.Reputation.{ReputationRecord, get_reputation}
use claw_net.Daemon.Settler.{pick_from, pick_winner_by_reputation}
use claw_net.Daemon.Settler.Winner.{IsOneOf, IsBest, pick_winner_by_reputation-IsBest}

-- A stand-in for float64 arithmetic, on whole numbers.
abbrev pub whole : Floats
whole = record {
  add = λ a b. a + b;
  sub = λ a b. a - b;
  mul = λ a b. a * b;
  div = λ a b. a;
  exp = λ a. a;
  decimal = λ m k. 1;
}

abbrev pub uuid_text : ℕ → String
uuid_text k = if k ==ℕ 0 then "u0" else (if k ==ℕ 1 then "u1" else "u2")

abbrev pub env : Env
env = record {
  self = "ann";
  now = pos 10000;
  now_text = "2026-01-01T00:00:00Z";
  uuid = uuid_text;
  network = λ m. true;
  unmarshal = λ t. none;
  marshal = λ ts. "[]";
  trim_space = λ t. t;
  to_lower = λ t. t;
  split_commas = λ t. t ∷ [];
  uptime = pos 0;
  connected = 0;
  floats = whole;
}

-- Ann has 200 Shell, and 1000 frozen for her task.
abbrev pub ann_row : Account
ann_row = record {
  balance = pos 200;
  frozen = pos 1000;
  total_earned = pos 1200;
  total_spent = pos 0;
  prestige = 0;
}

abbrev pub by_bob : TaskSubmission
by_bob = record {
  id = "s1";
  task_id = "t";
  worker_id = "bob";
  result = "sorted";
  is_winner = false;
}

abbrev pub by_cyd : TaskSubmission
by_cyd = record { id = "s2"; task_id = "t"; worker_id = "cyd"; result = "also"; is_winner = false }

abbrev pub node : Task → Node
node t = record {
  ledger = record {
    accounts = ("ann", ann_row) ∷ ("bob", opened (pos 50)) ∷ [];
    transactions = [];
    audit_log = [];
  };
  store = record {
    tasks = ("t", t) ∷ [];
    bids = [];
    submissions = ("s1", by_bob) ∷ ("s2", by_cyd) ∷ [];
  };
  reputation = [];
  contributors = [];
  writers = [];
  resumes = [];
  events = [];
  milestones = [];
  achievements = [];
  pending_ops = [];
  outbox = [];
  uuids = 0;
}

abbrev pub offered : Task
offered = sample open_

-- The same task in simple mode, with the work that Bob has submitted.
abbrev pub claimed : Task
claimed = record offered { status = submitted; assigned_to = "bob"; result = "sorted" }

pub node-IsSound : LedgerIsSound (node offered).ledger
unfolding ◌+ℤ◌
node-IsSound = ground arith

auto_settle_tasks_keeps_example :
    (supply (auto_settle_tasks env (node offered)).ledger ≡ supply (node offered).ledger)
    × LedgerIsSound (auto_settle_tasks env (node offered)).ledger
auto_settle_tasks_keeps_example = auto_settle_tasks_keeps env (node offered) node-IsSound

settle_task_covers_example :
    pos 200
    ≤ℤ balance_of "ann"
        (settle_task env offered (by_bob ∷ by_cyd ∷ []) by_bob (node offered)).ledger
unfolding find
settle_task_covers_example =
    settle_task_covers env offered (by_bob ∷ by_cyd ∷ []) by_bob 1000 (node offered) {a = ann_row}
      refl refl (omega arith) (omega arith) (omega arith)

settle_task_closes_example :
    let n' = settle_task env offered (by_bob ∷ by_cyd ∷ []) by_bob (node offered) in
    (find "t" n'.store.tasks ≡ some (record offered { status = settled }))
    × (n'.store.tasks ≡ insert "t" (record offered { status = settled }) (node offered).store.tasks)
unfolding find
settle_task_closes_example =
    settle_task_closes env offered (by_bob ∷ by_cyd ∷ []) by_bob (node offered) {row = offered} refl
      refl refl refl

-- The winner gets 800, the other 200, and the task is settled.
paid_out :
    let n' = settle_task env offered (by_bob ∷ by_cyd ∷ []) by_bob (node offered) in
    (balance_of "bob" n'.ledger ≡ pos 850) × (balance_of "cyd" n'.ledger ≡ pos 200)
unfolding settle_task find insert pay_submissions pay_submission pay distribute unfreeze_reward
    unfreeze_credits transfer_credits share wrap64 quot ◌*ℤ◌ ◌+ℤ◌ ◌-ℤ◌ consolation_each publish
    publish_credit_audit reward_prestige console_prestige award_prestige add_prestige
    recalc_reputation republish publish_task_update mark_winner less claw_net.Tasks.settle_task
    claw_net.Credits.Prestige.get_energy_profile claw_net.Tasks.get_task
paid_out = (refl, refl)

-- The fee of a reward above 2^63 / 5 is negative.
fee_wraps : task_fee (pos 2000000000000000000) ≡ negsuc 84467440737095515
unfolding task_fee wrap64 quot ◌*ℤ◌
fee_wraps = refl

milestone_unpaid_example :
    (check_and_complete_milestone env "first_task_publish" (node offered)).0.ledger
    ≡ (node offered).ledger
unfolding find
milestone_unpaid_example = milestone_unpaid env "first_task_publish" (node offered) refl

milestone_once_example :
    let n' = (check_and_complete_milestone env "first_task_claim" (node offered)).0 in
    check_and_complete_milestone env "first_task_claim" n' ≡ (n', pos 0)
milestone_once_example = milestone_once env "first_task_claim" (node offered)

abbrev cyd_ahead : Table ReputationRecord
cyd_ahead =
    (
      "cyd",
      record {
        score = pos 60;
        tasks_completed = 2;
        tasks_failed = 0;
        contributions = 0;
        knowledge_count = 0;
      },
    )
    ∷ []

cyd_picked : pick_winner_by_reputation (by_bob ∷ by_cyd ∷ []) cyd_ahead ≡ some by_cyd
unfolding pick_winner_by_reputation pick_from get_reputation find
cyd_picked = refl

pick_winner_by_reputation-IsBest_example :
    (w : TaskSubmission) × (pick_winner_by_reputation (by_bob ∷ by_cyd ∷ []) cyd_ahead ≡ some w)
    × IsOneOf w (by_bob ∷ by_cyd ∷ [])
    × IsBest cyd_ahead w (by_bob ∷ by_cyd ∷ [])
unfolding get_reputation find
pick_winner_by_reputation-IsBest_example =
    pick_winner_by_reputation-IsBest cyd_ahead by_bob (by_cyd ∷ []) (omega arith)
