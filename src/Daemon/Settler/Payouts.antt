-- ===== src/Daemon/Settler/Payouts.antt =====
-- Who pays what when a task is settled: clawnet-cli/internal/daemon/settler.go.
use claw_net.Base.{
  ℕ, ◌+◌, ◌*◌, ◌/◌, ◌≤◌, ◌<◌, String, Bool, false, some, inl, inr, List, [], ◌∷◌, ◌≡◌, ◌≢◌, refl,
  ◌∙◌, ap, sym, arith, Bool-cases, if◌then◌else◌, ◌==◌, ◌==ℕ◌, ltb, not, ◌&&◌, length, count,
  text_differs,
}
use claw_net.Base.Int.{ℤ, pos, ◌+ℤ◌, ◌≤ℤ◌, ltb_ℤ, quot_pos, two_63, int_laws}
use claw_net.Base.Table.{find}
use claw_net.Credits.{Account}
use claw_net.Credits.Balances.{balance_of, transfer_credits-sender, unfreeze_credits-balance}
use claw_net.Tasks.{Task, TaskSubmission}
use claw_net.Tasks.Submissions.{mark_winner}
use claw_net.Tasks.Window.{share, share_pos, winner_share_pct, consolation_share_pct}
use claw_net.Tasks.Earnings.{shares_fit, percents_fit}
use claw_net.Daemon.Node.{Node, Env, pay, unfreeze_reward}
use claw_net.Daemon.Kept.{republish-ledger, pay-ledger}
use claw_net.Daemon.Settler.{
  is_closed, is_consoled, consolation_each, pay_submission, pay_submissions, distribute,
  settle_task,
}
use claw_net.Daemon.Settler.Supply.{reward_prestige-balance}

abbrev is_winner_of : TaskSubmission → TaskSubmission → Bool
is_winner_of winner sub = sub.id == winner.id

-- What one round of the loop can cost the author, and what all rounds can.
abbrev cost : Task → TaskSubmission → ℕ → ℕ → TaskSubmission → ℕ
cost t winner a b sub =
    if is_winner_of winner sub then a else (if is_consoled t winner sub then b else 0)

abbrev costs : Task → TaskSubmission → ℕ → ℕ → List TaskSubmission → ℕ
costs t winner a b [] = 0
costs t winner a b (sub ∷ subs) = cost t winner a b sub + costs t winner a b subs

costs_lem :
    (t : Task) (winner : TaskSubmission) (a b : ℕ) (subs : List TaskSubmission)
    → costs t winner a b subs
      ≡ count (is_winner_of winner) subs * a + count (is_consoled t winner) subs * b
costs_lem t winner a b [] = omega arith
costs_lem t winner a b (sub ∷ subs) = grind (arith, costs_lem t winner a b subs)

-- What each of k consoled submissions gets of a reward of r.
abbrev each_of : ℕ → ℕ → ℕ
each_of r k = if ltb 0 k then r * 20 / 100 / k else 0

consolation_each_lem :
    (t : Task) (subs : List TaskSubmission) (winner : TaskSubmission) (r : ℕ)
    → t.reward ≡ pos r
    → r * 80 < two_63
    → consolation_each t subs winner ≡ pos (each_of r (count (is_consoled t winner) subs))
unfolding consolation_each
consolation_each_lem t subs winner r q fits =
    elim (Bool-cases (ltb 0 (count (is_consoled t winner) subs))) [
      | inl e ↦
          rw (e, ap (λ reward. share reward consolation_share_pct) q ∙ share_pos r 20 (omega arith))
            (quot_pos (r * 20 / 100) (count (is_consoled t winner) subs))
      | inr e ↦ rw e refl
    ]

each_fits : (r k : ℕ) → k * each_of r k ≤ r * 20 / 100
each_fits r k = elim (Bool-cases (ltb 0 k)) [
  | inl e ↦ rw e (shares_fit (r * 20 / 100) k)
  | inr e ↦ rw e (omega arith)
]

-- With one winner, all that the author can be made to pay is no more than the reward.
costs-le_reward :
    (t : Task) (winner : TaskSubmission) (r : ℕ) (subs : List TaskSubmission)
    → count (is_winner_of winner) subs ≤ 1
    → costs t winner (r * 80 / 100) (each_of r (count (is_consoled t winner) subs)) subs ≤ r
costs-le_reward t winner r subs one = grind (
  arith,
  costs_lem t winner (r * 80 / 100) (each_of r (count (is_consoled t winner) subs)) subs,
  each_fits r (count (is_consoled t winner) subs),
  percents_fit r,
)

module _ (env : Env) where
  pay-author :
      (from to : String) (amount : ℕ) (reason task : String) (n : Node)
      → from ≢ to
      → balance_of from n.ledger
        ≤ℤ balance_of from (pay env from to (pos amount) reason task n).ledger +ℤ pos amount
  pay-author from to amount reason task n ne =
      rw (pay-ledger env from to (pos amount) reason task n)
        (transfer_credits-sender _ from to (pos amount) reason task n.ledger ne (omega arith))

  pay_if-author :
      (from to : String) (amount : ℕ) (reason task : String) (n : Node)
      → from ≢ to
      → balance_of from n.ledger
        ≤ℤ balance_of from
            (if ltb_ℤ (pos 0) (pos amount)
              then pay env from to (pos amount) reason task n
              else n).ledger
          +ℤ pos amount
  pay_if-author from to amount reason task n ne = elim (Bool-cases (ltb_ℤ (pos 0) (pos amount))) [
    | inl e ↦ rw e (pay-author from to amount reason task n ne)
    | inr e ↦ rw e (omega int_laws)
  ]

  pay_submission-author :
      (t : Task) (winner : TaskSubmission) (a b : ℕ) (sub : TaskSubmission) (n : Node)
      → balance_of t.author_id n.ledger
        ≤ℤ balance_of t.author_id (pay_submission env t winner (pos a) (pos b) sub n).ledger
          +ℤ pos (cost t winner a b sub)
  unfolding pay_submission
  pay_submission-author t winner a b sub n = elim (Bool-cases (sub.worker_id == t.author_id)) [
    | inl own ↦ rw own (omega int_laws)
    | inr other ↦
        let ne : t.author_id ≢ sub.worker_id =
          (λ e. text_differs sub.worker_id t.author_id other (sym e)) in
        elim (Bool-cases (is_winner_of winner sub)) [
          | inl w ↦
              rw (other, w) (pay_if-author t.author_id sub.worker_id a "task_reward" t.id n ne)
          | inr w ↦
              rw (other, w) (pay_if-author t.author_id sub.worker_id b "task_consolation" t.id n ne)
        ]
  ]

  pay_submissions-author :
      (t : Task) (winner : TaskSubmission) (a b : ℕ) (subs : List TaskSubmission) (n : Node)
      → balance_of t.author_id n.ledger
        ≤ℤ balance_of t.author_id (pay_submissions env t winner (pos a) (pos b) subs n).ledger
          +ℤ pos (costs t winner a b subs)
  unfolding pay_submissions
  pay_submissions-author t winner a b [] n = omega int_laws
  pay_submissions-author t winner a b (sub ∷ subs) n = omega (
    int_laws,
    pay_submission-author t winner a b sub n,
    pay_submissions-author t winner a b subs (pay_submission env t winner (pos a) (pos b) sub n),
  )

  distribute-author :
      (t : Task) (subs : List TaskSubmission) (winner : TaskSubmission) (r : ℕ) (n : Node)
      → t.reward ≡ pos r
      → r * 80 < two_63
      → count (is_winner_of winner) subs ≤ 1
      → balance_of t.author_id n.ledger
        ≤ℤ balance_of t.author_id (distribute env t subs winner n).ledger +ℤ pos r
  unfolding distribute
  distribute-author t subs winner r n q fits one = elim (Bool-cases (length subs ==ℕ 1)) [
    | inl solo ↦
        elim (Bool-cases (ltb_ℤ (pos 0) t.reward && not (winner.worker_id == t.author_id))) [
          | inl e ↦
              let other : (winner.worker_id == t.author_id) ≡ false = ground arith in
              rw (solo, e, q)
                (pay-author t.author_id winner.worker_id r "task_reward" t.id n
                  (λ e. text_differs winner.worker_id t.author_id other (sym e)))
          | inr e ↦ rw (solo, e) (omega int_laws)
        ]
    | inr several ↦
        rw
          (
            several,
            ap (λ reward. share reward winner_share_pct) q ∙ share_pos r 80 fits,
            consolation_each_lem t subs winner r q fits,
          )
          (omega (
            int_laws,
            pay_submissions-author t winner (r * 80 / 100)
                (each_of r (count (is_consoled t winner) subs)) subs n,
            costs-le_reward t winner r subs one,
          ))
  ]

unfreeze_reward-author :
    (peer : String) (reward : ℤ) (r : ℕ) (n : Node) {a : Account}
    → find peer n.ledger.accounts ≡ some a
    → reward ≡ pos r
    → pos r ≤ℤ a.frozen
    → a.balance +ℤ pos r ≤ℤ balance_of peer (unfreeze_reward peer reward n).ledger
unfolding unfreeze_reward
unfreeze_reward-author peer reward r n {a} row q frozen =
    rw q (elim (Bool-cases (ltb_ℤ (pos 0) (pos r))) [
      | inl e ↦ rw (e, unfreeze_credits-balance peer (pos r) n.ledger row frozen) (omega arith)
      | inr e ↦ rw (e, row) (grind int_laws)
    ])

-- Whatever the submissions and the winner, settling a task never touches what its author has
-- available: when the author has an account in which at least the reward is frozen, the reward is
-- not negative and eighty times it fits an int64, and at most one submission has the winner's id,
-- the author's available balance is at the end at least what it was.
pub settle_task_covers :
    (env : Env) (t : Task) (subs : List TaskSubmission) (winner : TaskSubmission) (r : ℕ) (n : Node)
    {a : Account}
    → find t.author_id n.ledger.accounts ≡ some a
    → t.reward ≡ pos r
    → pos r ≤ℤ a.frozen
    → r * 80 < two_63
    → count (is_winner_of winner) subs ≤ 1
    → a.balance ≤ℤ balance_of t.author_id (settle_task env t subs winner n).ledger
unfolding settle_task
settle_task_covers env t subs winner r n {a} row q frozen fits one =
    elim (Bool-cases (is_closed t.status)) [
      | inl e ↦ rw (e, row) (omega arith)
      | inr e ↦
          let n' =
            unfreeze_reward t.author_id t.reward
              (record n { store = mark_winner winner.id n.store }) in
          rw
            (
              e,
              republish-ledger env t.id _,
              reward_prestige-balance env t subs winner t.author_id
                  (distribute env t subs winner n'),
            )
            (omega (
              int_laws,
              distribute-author env t subs winner r n' q fits one,
              unfreeze_reward-author t.author_id t.reward r
                  (record n { store = mark_winner winner.id n.store }) row q frozen,
            ))
    ]
