-- ===== src/Daemon/Publishing/Ledger.antt =====
-- What publishing does to the ledger: clawnet-cli/internal/daemon/phase2_gossip.go.
use claw_net.Base.{Bool, true, false, inl, inr, ◌≡◌, refl, ◌∙◌, ap, arith, Option-cases}
use claw_net.Tasks.{Task, TaskBid, TaskSubmission, insert_task_bid}
use claw_net.Tasks.Submissions.{insert_task_submission}
use claw_net.Daemon.Node.{Node, Env, publish}
use claw_net.Daemon.Kept.{publish-ledger}
use claw_net.Daemon.Publishing.{
  filled, freeze_reward, send_task, store_new, publish_task, new_id, sent_or_failed,
  publish_task_bid, publish_task_submission,
}

module _ (env : Env) where
  pub store_new-ledger : (t : Task) (n : Node) → (store_new env t n).ledger ≡ n.ledger
  unfolding store_new
  store_new-ledger t n = refl

  send_task-ledger : (t : Task) (n : Node) → (send_task env t n).0.ledger ≡ n.ledger
  unfolding send_task publish
  send_task-ledger t n = ground arith

  -- Of the ledger, publishing a task only freezes the reward.
  pub publish_task-ledger :
      (t : Task) (n : Node)
      → (publish_task env t n).0.ledger
        ≡ (freeze_reward env (filled env t n).reward (store_new env t n)).0.ledger
  unfolding publish_task
  publish_task-ledger t n =
      elim (Option-cases (freeze_reward env (filled env t n).reward (store_new env t n)).1) [
        | inl e ↦ rw (e, publish_task) (send_task-ledger (filled env t n) _)
        | inr (x, e) ↦ rw (e, publish_task) refl
      ]

  sent_or_failed-node : (r : Node × Bool) → (sent_or_failed env r).0 ≡ r.0
  sent_or_failed-node (n, true) = refl
  sent_or_failed-node (n, false) = refl

  pub publish_task_bid-ledger :
      (b : TaskBid) (n : Node) → (publish_task_bid env b n).0.ledger ≡ n.ledger
  unfolding publish_task_bid
  publish_task_bid-ledger b n =
      elim (Option-cases
        (insert_task_bid (record b { id = new_id env b.id n; bidder_id = env.self }) n.store).1) [
          | inl e ↦
              rw (e, publish_task_bid)
                (ap (λ (m : Node). m.ledger) (sent_or_failed-node (publish env _ _))
                  ∙ publish-ledger env _ _)
          | inr (x, e) ↦ rw (e, publish_task_bid) refl
        ]

  pub publish_task_submission-ledger :
      (sub : TaskSubmission) (n : Node) → (publish_task_submission env sub n).0.ledger ≡ n.ledger
  unfolding publish_task_submission
  publish_task_submission-ledger sub n =
      elim (Option-cases
        (insert_task_submission (record sub { id = new_id env sub.id n; worker_id = env.self })
          n.store).1) [
            | inl e ↦
                rw (e, publish_task_submission)
                  (ap (λ (m : Node). m.ledger) (sent_or_failed-node (publish env _ _))
                    ∙ publish-ledger env _ _)
            | inr (x, e) ↦ rw (e, publish_task_submission) refl
          ]
