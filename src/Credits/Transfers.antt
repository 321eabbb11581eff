-- ===== src/Credits/Transfers.antt =====
-- What `TransferCredits`, `FreezeCredits` and `UnfreezeCredits` do to each account.
use claw_net.Base.{
  String, Option, sym, ◌∙◌, ap, ◌≡◌, ◌≢◌, ◌↔◌, none, some, inl, inr, false, arith, Bool-cases,
}
use claw_net.Base.Int.{ℤ, pos, ◌+ℤ◌, ◌≤ℤ◌, leb_ℤ, int_laws}
use claw_net.Base.Table.{
  find, contains, find-insert_self, insert-insert, insert-find, find-insert_ne,
}
use claw_net.Credits.{
  StoreError, Account, Ledger, opened, credit, debit, freeze, unfreeze, transfer_credits,
  freeze_credits, unfreeze_credits,
}
use claw_net.Credits.Outcomes.{transfer_credits_cases, transfer_credits-eq_transferred}

-- A transfer succeeds exactly when the sender has an account that covers the amount and the
-- transaction id is new.
pub transfer_credits_succeeds :
    (txn from to : String) (amount : ℤ) (reason ref : String) (l : Ledger)
    → ((transfer_credits txn from to amount reason ref l).1 ≡ none) ↔ (
        (a : Account) × (find from l.accounts ≡ some a)
        × (amount ≤ℤ a.balance)
        × (contains txn l.transactions ≡ false))
transfer_credits_succeeds txn from to amount reason ref l = (there, back)
  where
    there :
        (transfer_credits txn from to amount reason ref l).1 ≡ none
        → (a : Account) × (find from l.accounts ≡ some a)
          × (amount ≤ℤ a.balance)
          × (contains txn l.transactions ≡ false)
    there ok = elim (transfer_credits_cases txn from to amount reason ref l) [
      | inl (e, failed) ↦ absurd (cc (ap (λ r. r.1) failed, ok))
      | inr (a, e, enough, fresh, _) ↦ (a, e, enough, fresh)
    ]

    back :
        ((a : Account) × (find from l.accounts ≡ some a)
          × (amount ≤ℤ a.balance)
          × (contains txn l.transactions ≡ false))
        → (transfer_credits txn from to amount reason ref l).1 ≡ none
    back (a, e, enough, fresh) =
        rw (transfer_credits-eq_transferred txn from to amount reason ref l e enough fresh)

-- A transfer that fails changes nothing.
pub transfer_credits_atomic :
    (txn from to : String) (amount : ℤ) (reason ref : String) (l : Ledger) {e : StoreError}
    → (transfer_credits txn from to amount reason ref l).1 ≡ some e
    → (transfer_credits txn from to amount reason ref l).0 ≡ l
transfer_credits_atomic txn from to amount reason ref l h =
    elim (transfer_credits_cases txn from to amount reason ref l) [
      | inl (e, failed) ↦ rw failed
      | inr (a, _, _, _, done) ↦ absurd (cc (ap (λ r. r.1) done, h))
    ]

-- The receiver's row after a transfer, from its row before.
abbrev credited : ℤ → Option Account → Account
credited amount o = elim o [ none ↦ opened amount | some b ↦ credit amount b ]

-- The account of each peer after a transfer between two different peers that succeeds: the sender's
-- is debited, the receiver's credited or opened, any other is as it was; and the transaction is on
-- record.
pub transfer_credits_effect :
    (txn from to : String) (amount : ℤ) (reason ref : String) (l : Ledger) {a : Account}
    → from ≢ to
    → find from l.accounts ≡ some a
    → amount ≤ℤ a.balance
    → contains txn l.transactions ≡ false
    → let l' = (transfer_credits txn from to amount reason ref l).0 in
      (find from l'.accounts ≡ some (debit amount a))
      × (find to l'.accounts ≡ some (credited amount (find to l.accounts)))
      × ((k : String) → k ≢ from → k ≢ to → find k l'.accounts ≡ find k l.accounts)
      × (find txn l'.transactions
          ≡ some (record {
            from_peer = from;
            to_peer = to;
            amount = amount;
            reason = reason;
            ref_id = ref;
          }))
transfer_credits_effect txn from to amount reason ref l {a} ne e enough fresh =
    rw (transfer_credits-eq_transferred txn from to amount reason ref l e enough fresh) (
      find-insert_ne to from _ _ (λ q. ne (sym q)) ∙ find-insert_self from _ _,
      find-insert_self to _ _ ∙ ap some (ap (credited amount) (find-insert_ne from to _ _ ne)),
      λ k not_from not_to.
          find-insert_ne to k _ _ (λ q. not_to (sym q))
          ∙ find-insert_ne from k _ _ (λ q. not_from (sym q)),
      find-insert_self txn _ _,
    )

unfreeze-freeze_row : (x : ℤ) (a : Account) → pos 0 ≤ℤ a.frozen → unfreeze x (freeze x a) ≡ a
unfreeze-freeze_row x a h = elim (Bool-cases (leb_ℤ x (a.frozen +ℤ x))) [
  | inl e ↦ rw e (grind int_laws)
  | inr e ↦ absurd (grind int_laws)
]

-- Unfreezing what was just frozen undoes it: the whole ledger is as it was before.
pub unfreeze-freeze :
    (peer : String) (amount : ℤ) (l : Ledger) {a : Account}
    → find peer l.accounts ≡ some a
    → pos 0 ≤ℤ a.frozen
    → amount ≤ℤ a.balance
    → unfreeze_credits peer amount (freeze_credits peer amount l).0 ≡ l
unfolding unfreeze_credits freeze_credits
unfreeze-freeze peer amount l {a} e nonneg enough = ground (
  arith,
  find-insert_self peer (freeze amount a) l.accounts,
  insert-insert peer (freeze amount a) (unfreeze amount (freeze amount a)) l.accounts,
  unfreeze-freeze_row amount a nonneg,
  insert-find peer a l.accounts e,
)
