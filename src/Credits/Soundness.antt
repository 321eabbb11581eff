-- ===== src/Credits/Soundness.antt =====
-- The invariant of credit_accounts, and that each method of credits.go keeps it.
use claw_net.Base.{String, ◌≡◌, some, inl, inr, arith, Option-cases, Bool-cases}
use claw_net.Base.Int.{ℤ, pos, ◌+ℤ◌, ◌≤ℤ◌, leb_ℤ, int_laws}
use claw_net.Credits.Outcomes.{transfer_credits_cases, freeze_credits_cases}
use claw_net.Base.Table.{
  contains, update, insert_new, Table, find, insert, AllRows, find-AllRows, insert-AllRows,
}
use claw_net.Credits.{
  Account, Ledger, opened, credit, debit, upsert_credit, freeze, unfreeze, burn, transfer_credits,
  freeze_credits, unfreeze_credits, add_credits, burn_energy, ensure_credit_account,
}

-- Nothing is negative, and what was earned is held, frozen or spent.
pub record IsSound (a : Account) : Type 0 where
  pub balance_nonneg : pos 0 ≤ℤ a.balance
  pub frozen_nonneg : pos 0 ≤ℤ a.frozen
  pub spent_nonneg : pos 0 ≤ℤ a.total_spent
  pub books_balance : a.balance +ℤ a.frozen +ℤ a.total_spent ≡ a.total_earned

abbrev pub AllSound : Table Account → Type 0
AllSound = AllRows IsSound

abbrev pub LedgerIsSound : Ledger → Type 0
LedgerIsSound l = AllSound l.accounts

opened-IsSound : (x : ℤ) → pos 0 ≤ℤ x → IsSound (opened x)
opened-IsSound x h = grind int_laws

credit-IsSound : (x : ℤ) (a : Account) → pos 0 ≤ℤ x → IsSound a → IsSound (credit x a)
credit-IsSound x a h s = grind int_laws

debit-IsSound :
    (x : ℤ) (a : Account) → pos 0 ≤ℤ x → x ≤ℤ a.balance → IsSound a → IsSound (debit x a)
debit-IsSound x a h k s = grind int_laws

freeze-IsSound :
    (x : ℤ) (a : Account) → pos 0 ≤ℤ x → x ≤ℤ a.balance → IsSound a → IsSound (freeze x a)
freeze-IsSound x a h k s = grind int_laws

unfreeze-IsSound : (x : ℤ) (a : Account) → pos 0 ≤ℤ x → IsSound a → IsSound (unfreeze x a)
unfreeze-IsSound x a h s = elim (Bool-cases (leb_ℤ x a.frozen)) [
  | inl e ↦ rw e (grind int_laws)
  | inr e ↦ rw e s
]

burn-IsSound : (x : ℤ) (a : Account) → pos 0 ≤ℤ x → IsSound a → IsSound (burn x a)
burn-IsSound x a h s = elim (Bool-cases (leb_ℤ x a.balance)) [
  | inl e ↦ rw e (debit-IsSound x a h (ground arith) s)
  | inr e ↦ rw e s
]

-- The row of an account that a ledger holds.
row : (k : String) (a : Account) (t : Table Account) → AllSound t → find k t ≡ some a → IsSound a
row = find-AllRows IsSound

write :
    (k : String) (a : Account) (t : Table Account)
    → AllSound t
    → IsSound a
    → AllSound (insert k a t)
write = insert-AllRows IsSound

upsert_credit-AllSound :
    (k : String) (x : ℤ) (t : Table Account)
    → pos 0 ≤ℤ x
    → AllSound t
    → AllSound (upsert_credit k x t)
upsert_credit-AllSound k x t h s = elim (Option-cases (find k t)) [
  | inl e ↦ rw e (write k (opened x) t s (opened-IsSound x h))
  | inr (a, e) ↦ rw e (write k (credit x a) t s (credit-IsSound x a h (row k a t s e)))
]

moved-AllSound :
    (from to : String) (x : ℤ) (a : Account) (t : Table Account)
    → pos 0 ≤ℤ x
    → x ≤ℤ a.balance
    → AllSound t
    → find from t ≡ some a
    → AllSound (upsert_credit to x (insert from (debit x a) t))
moved-AllSound from to x a t h k s e =
    upsert_credit-AllSound to x _ h (write from _ t s (debit-IsSound x a h k (row from a t s e)))

-- A transfer of an amount that is not negative keeps every account sound, however it ends.
pub transfer_credits-IsSound :
    (txn from to : String) (amount : ℤ) (reason ref : String) (l : Ledger)
    → pos 0 ≤ℤ amount
    → LedgerIsSound l
    → LedgerIsSound (transfer_credits txn from to amount reason ref l).0
transfer_credits-IsSound txn from to amount reason ref l h s =
    elim (transfer_credits_cases txn from to amount reason ref l) [
      | inl (_, failed) ↦ rw failed s
      | inr (a, e, enough, _, moved) ↦
          rw moved (moved-AllSound from to amount a l.accounts h enough s e)
    ]

pub freeze_credits-IsSound :
    (peer : String) (amount : ℤ) (l : Ledger)
    → pos 0 ≤ℤ amount
    → LedgerIsSound l
    → LedgerIsSound (freeze_credits peer amount l).0
freeze_credits-IsSound peer amount l h s = elim (freeze_credits_cases peer amount l) [
  | inl (_, failed) ↦ rw failed s
  | inr (a, e, enough, done) ↦
      rw done
        (write peer _ l.accounts s (freeze-IsSound amount a h enough (row peer a l.accounts s e)))
]

-- An update of one row that keeps a sound row sound keeps the table sound.
pub update-AllSound :
    (k : String) (f : Account → Account) (t : Table Account)
    → ((a : Account) → IsSound a → IsSound (f a))
    → AllSound t
    → AllSound (update k f t)
update-AllSound k f t keep s = elim (Option-cases (find k t)) [
  | inl e ↦ rw (e, update) s
  | inr (a, e) ↦ rw (e, update) (write k (f a) t s (keep a (row k a t s e)))
]

pub unfreeze_credits-IsSound :
    (peer : String) (amount : ℤ) (l : Ledger)
    → pos 0 ≤ℤ amount
    → LedgerIsSound l
    → LedgerIsSound (unfreeze_credits peer amount l)
unfolding unfreeze_credits
unfreeze_credits-IsSound peer amount l h =
    update-AllSound peer (unfreeze amount) l.accounts (λ a. unfreeze-IsSound amount a h)

pub burn_energy-IsSound :
    (peer : String) (amount : ℤ) (l : Ledger)
    → pos 0 ≤ℤ amount
    → LedgerIsSound l
    → LedgerIsSound (burn_energy peer amount l)
unfolding burn_energy
burn_energy-IsSound peer amount l h =
    update-AllSound peer (burn amount) l.accounts (λ a. burn-IsSound amount a h)

pub add_credits-IsSound :
    (txn peer : String) (amount : ℤ) (reason : String) (l : Ledger)
    → pos 0 ≤ℤ amount
    → LedgerIsSound l
    → LedgerIsSound (add_credits txn peer amount reason l).0
unfolding add_credits
add_credits-IsSound txn peer amount reason l h s = elim (Bool-cases (contains txn l.transactions)) [
  | inl used ↦ rw used s
  | inr fresh ↦ rw fresh (upsert_credit-AllSound peer amount l.accounts h s)
]

pub ensure_credit_account-IsSound :
    (peer : String) (initial : ℤ) (l : Ledger)
    → pos 0 ≤ℤ initial
    → LedgerIsSound l
    → LedgerIsSound (ensure_credit_account peer initial l)
unfolding ensure_credit_account
ensure_credit_account-IsSound peer initial l h s = elim (Option-cases (find peer l.accounts)) [
  | inl e ↦ rw (e, insert_new) (write peer (opened initial) l.accounts s (opened-IsSound initial h))
  | inr (a, e) ↦ rw (e, insert_new) s
]
