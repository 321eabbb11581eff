-- ===== src/Credits/Outcomes.antt =====
-- How a call of a method of credits.go can end: the two ends of `TransferCredits`, `FreezeCredits`
-- and `AddCredits`, with what each has found.
use claw_net.Base.{String, ◌≡◌, none, some, inl, inr, ◌⊎◌, false, arith, Option-cases, Bool-cases}
use claw_net.Base.Int.{ℤ, ◌≤ℤ◌, ltb_ℤ}
use claw_net.Base.Table.{find, insert, contains}
use claw_net.Credits.{
  StoreError, insufficient_credits, no_rows, constraint_failed, Account, Ledger, debit,
  upsert_credit, freeze, transfer_credits, freeze_credits,
}

module _ (txn from to : String) (amount : ℤ) (reason ref : String) (l : Ledger) where
  -- The ledger after a transfer from an account with the row `a`.
  abbrev pub transferred : Account → Ledger
  transferred a = record l {
    accounts = upsert_credit to amount (insert from (debit amount a) l.accounts);
    transactions =
        insert txn
          (record {
            from_peer = from;
            to_peer = to;
            amount = amount;
            reason = reason;
            ref_id = ref;
          })
          l.transactions;
  }

  pub transfer_credits_cases :
      ((e : StoreError) × (transfer_credits txn from to amount reason ref l ≡ (l, some e)))
      ⊎ ((a : Account) × (find from l.accounts ≡ some a)
          × (amount ≤ℤ a.balance)
          × (contains txn l.transactions ≡ false)
          × (transfer_credits txn from to amount reason ref l ≡ (transferred a, none)))
  unfolding transfer_credits
  transfer_credits_cases = elim (Option-cases (find from l.accounts)) [
    | inl e ↦ inl (no_rows, ground arith)
    | inr (a, e) ↦ elim (Bool-cases (ltb_ℤ a.balance amount)) [
      | inl short ↦ inl (insufficient_credits, ground arith)
      | inr enough ↦ elim (Bool-cases (contains txn l.transactions)) [
        | inl used ↦ inl (constraint_failed, ground arith)
        | inr fresh ↦ inr (a, e, ground arith, fresh, ground arith)
      ]
    ]
  ]

  -- The conditions of a transfer are also enough for it.
  pub transfer_credits-eq_transferred :
      {a : Account}
      → find from l.accounts ≡ some a
      → amount ≤ℤ a.balance
      → contains txn l.transactions ≡ false
      → transfer_credits txn from to amount reason ref l ≡ (transferred a, none)
  unfolding transfer_credits
  transfer_credits-eq_transferred e enough fresh = ground arith

module _ (peer : String) (amount : ℤ) (l : Ledger) where
  abbrev pub frozen_in : Account → Ledger
  frozen_in a = record l { accounts = insert peer (freeze amount a) l.accounts }

  pub freeze_credits_cases :
      ((e : StoreError) × (freeze_credits peer amount l ≡ (l, some e)))
      ⊎ ((a : Account) × (find peer l.accounts ≡ some a)
          × (amount ≤ℤ a.balance)
          × (freeze_credits peer amount l ≡ (frozen_in a, none)))
  unfolding freeze_credits
  freeze_credits_cases = elim (Option-cases (find peer l.accounts)) [
    | inl e ↦ inl (no_rows, ground arith)
    | inr (a, e) ↦ elim (Bool-cases (ltb_ℤ a.balance amount)) [
      | inl short ↦ inl (insufficient_credits, ground arith)
      | inr enough ↦ inr (a, e, ground arith, ground arith)
    ]
  ]
