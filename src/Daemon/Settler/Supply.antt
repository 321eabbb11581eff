-- ===== src/Daemon/Settler/Supply.antt =====
-- What settlement keeps true of the ledger: clawnet-cli/internal/daemon/settler.go.
use claw_net.Tasks.Submissions.{list_settleable_tasks, list_expired_no_submission_tasks}
use claw_net.Base.{
  String, inl, inr, List, [], ◌∷◌, ◌≡◌, refl, ◌∙◌, arith, Option-cases, Bool-cases, if◌then◌else◌,
  ◌==◌, ◌==ℕ◌, not, ◌&&◌, length,
}
use claw_net.Base.Int.{ℤ, pos, ltb_ℤ}
use claw_net.Float.{Float64}
use claw_net.Credits.{Ledger}
use claw_net.Credits.Balances.{balance_of}
use claw_net.Credits.Prestige.{add_prestige, add_prestige-balance}
use claw_net.Credits.Supply.{supply}
use claw_net.Credits.Soundness.{LedgerIsSound}
use claw_net.Tasks.{Task, TaskSubmission}
use claw_net.Daemon.Node.{Node, Env, pay, award_prestige, recalc_reputation}
use claw_net.Daemon.Kept.{
  IsKept, supply-IsKept, soundness-IsKept, republish-ledger, pay-Kept, unfreeze_reward-Kept,
}
use claw_net.Daemon.Settler.{
  refund_expired, is_closed, is_consoled, pay_submission, pay_submissions, distribute,
  console_prestige, reward_prestige, settle_task, settle_all, settle_with, refund_all,
  auto_settle_tasks, pick_winner_by_reputation,
}

module _ (env : Env) (P : Ledger → Type 0)
    (keeps : (peer : String) (amount evaluator : Float64) (l : Ledger)
      → P l
      → P (add_prestige env.floats peer amount evaluator l)) where
  console_prestige-Kept :
      (t : Task) (winner : TaskSubmission) (evaluator : Float64) (subs : List TaskSubmission)
      (n : Node)
      → P n.ledger
      → P (console_prestige env t winner evaluator subs n).ledger
  unfolding console_prestige award_prestige
  console_prestige-Kept t winner evaluator [] n p = p
  console_prestige-Kept t winner evaluator (sub ∷ subs) n p =
      console_prestige-Kept t winner evaluator subs _
        (elim (Bool-cases (is_consoled t winner sub)) [
          | inl e ↦ rw e (keeps _ _ evaluator n.ledger p)
          | inr e ↦ rw e p
        ])

  reward_prestige-Kept :
      (t : Task) (subs : List TaskSubmission) (winner : TaskSubmission) (n : Node)
      → P n.ledger
      → P (reward_prestige env t subs winner n).ledger
  unfolding reward_prestige recalc_reputation award_prestige
  reward_prestige-Kept t subs winner n p = elim (Bool-cases (winner.worker_id == t.author_id)) [
    | inl e ↦ rw e p
    | inr e ↦ rw e (console_prestige-Kept t winner _ subs _ (keeps _ _ _ n.ledger p))
  ]

-- The gains of prestige leave every available balance as it is.
pub reward_prestige-balance :
    (env : Env) (t : Task) (subs : List TaskSubmission) (winner : TaskSubmission) (k : String)
    (n : Node)
    → balance_of k (reward_prestige env t subs winner n).ledger ≡ balance_of k n.ledger
reward_prestige-balance env t subs winner k n =
    reward_prestige-Kept env (λ l. balance_of k l ≡ balance_of k n.ledger)
      (λ peer amount evaluator l e. add_prestige-balance env.floats peer amount evaluator k l ∙ e) t
      subs winner n refl

module _ (env : Env) (P : Ledger → Type 0) (kept : IsKept env.floats P) where
  pay_if-Kept :
      (from to : String) (amount : ℤ) (reason task : String) (n : Node)
      → P n.ledger
      → P (if ltb_ℤ (pos 0) amount then pay env from to amount reason task n else n).ledger
  pay_if-Kept from to amount reason task n p = elim (Bool-cases (ltb_ℤ (pos 0) amount)) [
    | inl e ↦ rw e (pay-Kept env P kept from to amount reason task n (ground arith) p)
    | inr e ↦ rw e p
  ]

  pay_submission-Kept :
      (t : Task) (winner : TaskSubmission) (winner_pay each : ℤ) (sub : TaskSubmission) (n : Node)
      → P n.ledger
      → P (pay_submission env t winner winner_pay each sub n).ledger
  unfolding pay_submission
  pay_submission-Kept t winner winner_pay each sub n p =
      elim (Bool-cases (sub.worker_id == t.author_id)) [
        | inl e ↦ rw e p
        | inr e ↦ elim (Bool-cases (sub.id == winner.id)) [
          | inl w ↦ rw (e, w) (pay_if-Kept _ _ winner_pay _ _ n p)
          | inr w ↦ rw (e, w) (pay_if-Kept _ _ each _ _ n p)
        ]
      ]

  pay_submissions-Kept :
      (t : Task) (winner : TaskSubmission) (winner_pay each : ℤ) (subs : List TaskSubmission)
      (n : Node)
      → P n.ledger
      → P (pay_submissions env t winner winner_pay each subs n).ledger
  unfolding pay_submissions
  pay_submissions-Kept t winner winner_pay each [] n p = p
  pay_submissions-Kept t winner winner_pay each (sub ∷ subs) n p =
      pay_submissions-Kept t winner winner_pay each subs _
        (pay_submission-Kept t winner winner_pay each sub n p)

  distribute-Kept :
      (t : Task) (subs : List TaskSubmission) (winner : TaskSubmission) (n : Node)
      → P n.ledger
      → P (distribute env t subs winner n).ledger
  unfolding distribute
  distribute-Kept t subs winner n p = elim (Bool-cases (length subs ==ℕ 1)) [
    | inl one ↦
        elim (Bool-cases (ltb_ℤ (pos 0) t.reward && not (winner.worker_id == t.author_id))) [
          | inl e ↦ rw (one, e) (pay-Kept env P kept _ _ t.reward _ _ n (ground arith) p)
          | inr e ↦ rw (one, e) p
        ]
    | inr many ↦ rw many (pay_submissions-Kept t winner _ _ subs n p)
  ]

  pub settle_task-Kept :
      (t : Task) (subs : List TaskSubmission) (winner : TaskSubmission) (n : Node)
      → P n.ledger
      → P (settle_task env t subs winner n).ledger
  unfolding settle_task
  settle_task-Kept t subs winner n p = elim (Bool-cases (is_closed t.status)) [
    | inl e ↦ rw e p
    | inr e ↦
        rw (e, republish-ledger env t.id _)
          (reward_prestige-Kept env P kept.prestige_keeps t subs winner _ (
            distribute-Kept t subs winner _
              (unfreeze_reward-Kept env P kept t.author_id t.reward _ p)))
  ]

  settle_with-Kept :
      (t : Task) (subs : List TaskSubmission) (n : Node)
      → P n.ledger
      → P (settle_with env t subs n).ledger
  unfolding settle_with
  settle_with-Kept t [] n p = p
  settle_with-Kept t (sub ∷ subs) n p =
      elim (Option-cases (pick_winner_by_reputation (sub ∷ subs) n.reputation)) [
        | inl e ↦ rw (e, settle_with) (settle_task-Kept t (sub ∷ subs) sub n p)
        | inr (winner, e) ↦ rw (e, settle_with) (settle_task-Kept t (sub ∷ subs) winner n p)
      ]

  settle_all-Kept : (ts : List Task) (n : Node) → P n.ledger → P (settle_all env ts n).ledger
  unfolding settle_all
  settle_all-Kept [] n p = p
  settle_all-Kept (t ∷ ts) n p = settle_all-Kept ts _ (settle_with-Kept t _ n p)

  refund_all-Kept : (ts : List Task) (n : Node) → P n.ledger → P (refund_all env ts n).ledger
  unfolding refund_all
  refund_all-Kept [] n p = p
  refund_all-Kept (t ∷ ts) n p =
      refund_all-Kept ts _ (unfreeze_reward-Kept env P kept t.author_id t.reward n p)

  pub auto_settle_tasks-Kept : (n : Node) → P n.ledger → P (auto_settle_tasks env n).ledger
  unfolding auto_settle_tasks refund_expired
  auto_settle_tasks-Kept n p = elim (Option-cases (list_settleable_tasks env.now n.store)) [
    | inl e ↦ rw (e, auto_settle_tasks) p
    | inr (ts, e) ↦
        let q = settle_all-Kept ts n p in
        elim (Option-cases (list_expired_no_submission_tasks env.now (settle_all env ts n).store)) [
          | inl f ↦ rw (e, auto_settle_tasks, f, refund_expired) q
          | inr (us, f) ↦
              rw (e, auto_settle_tasks, f, refund_expired)
                (refund_all-Kept us (settle_all env ts n) q)
        ]
  ]

-- On a node whose accounts are sound, a round of automatic settlement, whatever tasks, submissions
-- and clock it meets, neither makes nor loses Shell, and leaves the accounts sound.
pub auto_settle_tasks_keeps :
    (env : Env) (n : Node)
    → LedgerIsSound n.ledger
    → (supply (auto_settle_tasks env n).ledger ≡ supply n.ledger)
      × LedgerIsSound (auto_settle_tasks env n).ledger
auto_settle_tasks_keeps env n s = (
  auto_settle_tasks-Kept env (λ l. supply l ≡ supply n.ledger)
      (supply-IsKept env.floats (supply n.ledger)) n refl,
  auto_settle_tasks-Kept env LedgerIsSound (soundness-IsKept env.floats) n s,
)
