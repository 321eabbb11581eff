-- ===== src/Credits/Balances.antt =====
-- The available balance of a peer under the methods of credits.go and energy.go.
use claw_net.Base.{
  String, Option, sym, ◌∙◌, ap, ◌≡◌, ◌≢◌, refl, none, some, inl, inr, false, arith, Option-cases,
}
use claw_net.Base.Int.{ℤ, pos, ◌+ℤ◌, ◌-ℤ◌, ◌≤ℤ◌, int_laws}
use claw_net.Base.Table.{Table, find, insert, contains, weight, find-insert_self, find-insert_ne}
use claw_net.Credits.{
  Account, Ledger, opened, credit, debit, unfreeze, upsert_credit, transfer_credits,
  unfreeze_credits,
}
use claw_net.Credits.Outcomes.{transfer_credits_cases, transfer_credits-eq_transferred}

-- The available Shell of a peer, none if it has no account.
abbrev pub balance_of : String → Ledger → ℤ
balance_of k l = weight (λ a. a.balance) (find k l.accounts)

balance_of-row :
    (k : String) (l : Ledger) {o : Option Account}
    → find k l.accounts ≡ o
    → balance_of k l ≡ weight (λ a. a.balance) o
balance_of-row k l e = ap (weight (λ a. a.balance)) e

upsert_credit-balance :
    (k : String) (x : ℤ) (t : Table Account)
    → weight (λ a. a.balance) (find k (upsert_credit k x t))
      ≡ weight (λ a. a.balance) (find k t) +ℤ x
upsert_credit-balance k x t = elim (Option-cases (find k t)) [
  | inl e ↦
      rw (find-insert_self k (elim (find k t) [ none ↦ opened x | some a ↦ credit x a ]) t, e)
        (omega int_laws)
  | inr (a, e) ↦
      rw (find-insert_self k (elim (find k t) [ none ↦ opened x | some a ↦ credit x a ]) t, e) refl
]

-- A transfer to another peer takes at most its amount from the sender, and when it succeeds exactly
-- that.
pub transfer_credits-sender :
    (txn from to : String) (amount : ℤ) (reason ref : String) (l : Ledger)
    → from ≢ to
    → pos 0 ≤ℤ amount
    → balance_of from l
      ≤ℤ balance_of from (transfer_credits txn from to amount reason ref l).0 +ℤ amount
transfer_credits-sender txn from to amount reason ref l ne nonneg =
    elim (transfer_credits_cases txn from to amount reason ref l) [
      | inl (e, failed) ↦ rw failed (omega int_laws)
      | inr (a, e, enough, fresh, done) ↦
          rw
            (
              done,
              find-insert_ne to from _ (insert from (debit amount a) l.accounts) (λ q. ne (sym q)),
              find-insert_self from (debit amount a) l.accounts,
              e,
            )
            (omega int_laws)
    ]

-- A transfer that succeeds credits the receiver, if that is another peer.
pub transfer_credits-receiver :
    (txn from to : String) (amount : ℤ) (reason ref : String) (l : Ledger) {a : Account}
    → from ≢ to
    → find from l.accounts ≡ some a
    → amount ≤ℤ a.balance
    → contains txn l.transactions ≡ false
    → balance_of to (transfer_credits txn from to amount reason ref l).0 ≡ balance_of to l +ℤ amount
transfer_credits-receiver txn from to amount reason ref l {a} ne e enough fresh =
    rw (transfer_credits-eq_transferred txn from to amount reason ref l e enough fresh) (
      upsert_credit-balance to amount (insert from (debit amount a) l.accounts)
      ∙ ap (λ o. weight (λ b. b.balance) o +ℤ amount)
          (find-insert_ne from to (debit amount a) l.accounts ne))

-- Unfreezing what is frozen makes it available.
pub unfreeze_credits-balance :
    (peer : String) (amount : ℤ) (l : Ledger) {a : Account}
    → find peer l.accounts ≡ some a
    → amount ≤ℤ a.frozen
    → find peer (unfreeze_credits peer amount l).accounts
      ≡ some (record a { balance = a.balance +ℤ amount; frozen = a.frozen -ℤ amount })
unfolding unfreeze_credits
unfreeze_credits-balance peer amount l {a} e enough =
    ground (arith, find-insert_self peer (unfreeze amount a) l.accounts)

-- Unfreezing touches no other account, and no transaction.
pub unfreeze_credits-other :
    (peer k : String) (amount : ℤ) (l : Ledger)
    → peer ≢ k
    → find k (unfreeze_credits peer amount l).accounts ≡ find k l.accounts
unfolding unfreeze_credits
unfreeze_credits-other peer k amount l ne = elim (Option-cases (find peer l.accounts)) [
  | inl e ↦ ground arith
  | inr (a, e) ↦ ground (arith, find-insert_ne peer k (unfreeze amount a) l.accounts ne)
]

pub unfreeze_credits-contains :
    (peer : String) (amount : ℤ) (txn : String) (l : Ledger)
    → contains txn l.transactions ≡ false
    → contains txn (unfreeze_credits peer amount l).transactions ≡ false
unfolding unfreeze_credits
unfreeze_credits-contains peer amount txn l h = h
