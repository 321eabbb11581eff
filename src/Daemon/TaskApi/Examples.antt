-- ===== src/Daemon/TaskApi/Examples.antt =====
-- Requests about tasks on small data.
use claw_net.Base.{false, some, List, [], ◌∷◌, ◌≡◌, refl, arith, text_differs}
use claw_net.Base.Int.{pos, ◌+ℤ◌, ◌-ℤ◌}
use claw_net.Base.Table.{find}
use claw_net.Credits.Supply.{supply}
use claw_net.Credits.Soundness.{LedgerIsSound}
use claw_net.Credits.Balances.{balance_of}
use claw_net.Daemon.Node.{update_msg, Env}
use claw_net.Daemon.TaskApi.{handle_task_approve, conflict, ok, not_found}
use claw_net.Daemon.Gossip.{receive_credit_audit, pay_claimed}
use claw_net.Daemon.Gossip.Replays.{receive_credit_audit_again, pay_claimed_agrees}
use claw_net.Daemon.TaskApi.{settle_approved}
use claw_net.Credits.{AuditRecord}
use claw_net.Daemon.TaskApi.{handle_task_cancel}
use claw_net.Daemon.TaskApi.Cancellation.{handle_task_cancel_refunds}
use claw_net.Tasks.{cancelled, get_task, Task}
use claw_net.Daemon.TaskApi.Approval.{handle_task_approve_once}
use claw_net.Daemon.TaskApi.Payment.{handle_task_approve_pays}
use claw_net.Daemon.TaskApi.History.{Request, history, history_keeps}
use claw_net.Daemon.Examples.{env, node, offered, claimed, ann_row, node-IsSound}

handle_task_approve_once_example :
    let n' = (handle_task_approve env "t" (node claimed)).0 in
    handle_task_approve env "t" n' ≡ (n', conflict)
unfolding find get_task
handle_task_approve_once_example =
    handle_task_approve_once env "t" (node claimed) {t = claimed} refl refl

handle_task_approve_pays_example :
    let (n', code) = handle_task_approve env "t" (node claimed) in
    (code ≡ ok)
    × (balance_of "bob" n'.ledger ≡ pos 50 +ℤ pos 1000)
    × (balance_of "ann" n'.ledger ≡ pos 200)
unfolding find get_task
handle_task_approve_pays_example =
    handle_task_approve_pays env "t" (node claimed) {t = claimed} {a = ann_row} refl refl
      (text_differs "bob" "" refl) (text_differs "bob" "ann" refl) (omega arith) refl (omega arith)
      (omega arith) refl

abbrev requests : List (Env × Request)
requests =
    (env, Request.create (some (record offered { id = ""; reward = pos 100; title = "Count" })))
    ∷ (
      env,
      Request.bid "t"
          (some (record { id = ""; task_id = ""; bidder_id = ""; amount = pos 0; message = "" })),
    )
    ∷ (env, Request.pick_winner "t" (some "s2"))
    ∷ (env, Request.approve "t")
    ∷ (env, Request.receive "ann" (update_msg claimed))
    ∷ (env, Request.auto_approve "t")
    ∷ (env, Request.settle_round)
    ∷ []

history_keeps_example :
    (supply (history requests (node offered)).ledger ≡ supply (node offered).ledger)
    × LedgerIsSound (history requests (node offered)).ledger
history_keeps_example =
    history_keeps requests (node offered) (omega arith, (tt, (tt, (tt, (tt, (tt, (tt, tt)))))))
      node-IsSound

abbrev audit : AuditRecord
audit = record {
  task_id = "t";
  from_peer = "bob";
  to_peer = "ann";
  amount = pos 7;
  reason = "task_reward";
  event_time = "2026-01-01T00:00:00Z";
}

receive_credit_audit_again_example :
    receive_credit_audit env false "x" audit
      (receive_credit_audit env false "x" audit (node offered))
    ≡ receive_credit_audit env false "x" audit (node offered)
receive_credit_audit_again_example = receive_credit_audit_again env false "x" audit (node offered)

pay_claimed_agrees_example :
    pay_claimed env "t" claimed (node claimed) ≡ settle_approved env "t" claimed (node claimed)
pay_claimed_agrees_example =
    pay_claimed_agrees env "t" claimed (node claimed) (text_differs "bob" "ann" refl)

handle_task_cancel_refunds_example :
    let (n', code) = handle_task_cancel env "t" (node offered) in
    (code ≡ ok)
    × (find "ann" n'.ledger.accounts
        ≡ some (record ann_row { balance = pos 200 +ℤ pos 1000; frozen = pos 1000 -ℤ pos 1000 }))
    × (find "t" n'.store.tasks ≡ some (record offered { status = cancelled }))
unfolding find get_task
handle_task_cancel_refunds_example =
    handle_task_cancel_refunds env "t" (node offered) {t = offered} {a = ann_row} refl refl refl
      refl (omega arith) refl (omega arith)

abbrev big_reward : Task
big_reward = record offered { reward = pos 1000000 }

-- A task with a reward of a million cannot be cancelled: it is not found.
a_million_stays : handle_task_cancel env "t" (node big_reward) ≡ (node big_reward, not_found)
unfolding handle_task_cancel get_task find
a_million_stays = refl
