-- ===== src/Tasks/Examples.antt =====
-- Tasks on small data.
use claw_net.Base.{List, [], ◌∷◌, String, ◌≡◌, ◌≢◌, refl, ◌≤◌, none, some, arith}
use claw_net.Base.Int.{pos, ◌≤ℤ◌, ◌+ℤ◌, ◌*ℤ◌}
use claw_net.Base.Table.{find, insert}
use claw_net.Tasks.{
  Task, TaskStore, Status, open_, approved, assign_task, submit_task, approve_task, claim_task,
  cancel_task, settle_task, insert_task,
}
use claw_net.Tasks.Window.{
  bid_window_base, bid_window_max, compute_bid_close, compute_bid_close_bounds, expected_earnings,
}
use claw_net.Tasks.Earnings.{expected_earnings-le_reward}
use claw_net.Tasks.Lifecycle.{Move, move, moves, steps_of, steps_bounded, final_absorbs}
use claw_net.Tasks.Upsert.{insert_task_again, insert_task_keeps}

abbrev pub sample : Status → Task
sample status = record {
  id = "t";
  author_id = "ann";
  title = "Sort the shells";
  description = "";
  tags = "[]";
  deadline = "";
  reward = pos 1000;
  status = status;
  assigned_to = "";
  result = "";
  target_peer = "";
  bid_close_at = none;
  work_deadline = some (pos 9000);
  mode = "simple";
  self_eval_score = 0;
  created_at = pos 0;
  nutshell_hash = "";
  nutshell_id = "";
  bundle_type = "";
}

abbrev pub one_task : Status → TaskStore
one_task status = record { tasks = ("t", sample status) ∷ []; bids = []; submissions = [] }

abbrev attempts : List Move
attempts =
    Move.submit "t" "early"
    ∷ Move.claim "t" "bob" "sorted" 0
    ∷ Move.assign "t" "cyd"
    ∷ Move.approve "t"
    ∷ Move.settle "t"
    ∷ Move.cancel "t"
    ∷ []

attempts_steps : steps_of "t" attempts (one_task open_) ≡ 2
unfolding move assign_task submit_task approve_task claim_task cancel_task settle_task find insert
attempts_steps = refl

steps_bounded_test : steps_of "t" attempts (one_task open_) ≤ 3
steps_bounded_test = steps_bounded "t" attempts (one_task open_)

final_absorbs_example : find "t" (moves attempts (one_task approved)).tasks ≡ some (sample approved)
unfolding find
final_absorbs_example = final_absorbs "t" attempts (one_task approved) refl refl

insert_task_again_test : insert_task (pos 7) (sample open_) (one_task open_) ≡ one_task open_
unfolding find
insert_task_again_test = insert_task_again (pos 7) (sample open_) (one_task open_) refl

compute_bid_close_bounds_test :
    (pos 0 +ℤ bid_window_base ≤ℤ compute_bid_close (pos 0) (pos 1))
    × (compute_bid_close (pos 0) (pos 1) ≤ℤ compute_bid_close (pos 0) (pos 50))
    × (compute_bid_close (pos 0) (pos 50) ≤ℤ pos 0 +ℤ bid_window_max)
compute_bid_close_bounds_test = compute_bid_close_bounds (pos 0) 1 50 (omega arith) (omega arith)

expected_earnings-le_reward_test : pos 4 *ℤ expected_earnings (pos 1000) (pos 4) ≤ℤ pos 1000
expected_earnings-le_reward_test =
    expected_earnings-le_reward 1000 3 (omega arith) (omega arith) (omega arith)

insert_task_keeps_test :
    (new : Task) × (find "t" (insert_task (pos 7) (sample approved) (one_task open_)).tasks
      ≡ some new)
    × (new.author_id ≡ "ann")
    × (new.created_at ≡ pos 0)
    × (◌≢◌ {A = String} "" "" → new.assigned_to ≢ "")
    × (◌≢◌ {A = String} "" "" → new.result ≢ "")
    × ((k : String)
        → "t" ≢ k
        → find k (insert_task (pos 7) (sample approved) (one_task open_)).tasks
          ≡ find k (one_task open_).tasks)
unfolding find
insert_task_keeps_test =
    insert_task_keeps (pos 7) (sample approved) (sample open_) (one_task open_) refl
