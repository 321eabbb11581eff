-- ===== src/Credits.antt =====
-- The Shell ledger: clawnet-cli/internal/store/credits.go (accounts, transfers, freezing, audit log).
--
-- The tables credit_accounts, credit_transactions and credit_audit_log are a record of three
-- tables. Each method returns the new ledger and its error. The amount columns are REAL: up to
-- 2^53 a REAL holds an integer exactly, and the amounts here are integers without a bound. Failures
-- of the database itself (disk, locks) are not modelled, and neither are the updated_at and
-- created_at columns, which no method reads but to sort.
pub mod Supply
pub mod Soundness
pub mod Transfers
pub mod Tiers
pub mod Prestige
pub mod History
pub mod Outcomes
pub mod Balances
mod Examples
use claw_net.Base.{String, ℕ, Bool, true, false, Option, none, some, if◌then◌else◌, ◌==◌, ◌≡◌}
use claw_net.Base.Int.{ℤ, pos, ◌+ℤ◌, ◌-ℤ◌, ltb_ℤ, leb_ℤ}
use claw_net.Base.Table.{Table, find, insert, insert_new, update, contains}
use claw_net.Float.{Float64, zero64}

pub data StoreError : Type 0 where
  no_rows constraint_failed insufficient_credits task_state_conflict : StoreError

-- `CreditAccount`; the row's key is the peer id.
pub record Account : Type 0 where
  pub balance : ℤ
  pub frozen : ℤ
  pub total_earned : ℤ
  pub total_spent : ℤ
  pub prestige : Float64

-- `CreditTransaction`; the row's key is the id.
pub record Transaction : Type 0 where
  pub from_peer : String
  pub to_peer : String
  pub amount : ℤ
  pub reason : String
  pub ref_id : String

-- `CreditAuditRecord`; the row's key is txn_id.
pub record AuditRecord : Type 0 where
  pub task_id : String
  pub from_peer : String
  pub to_peer : String
  pub amount : ℤ
  pub reason : String
  pub event_time : String

pub record Ledger : Type 0 where
  pub accounts : Table Account
  pub transactions : Table Transaction
  pub audit_log : Table AuditRecord

-- The row that an INSERT of (peer_id, balance, total_earned) makes: the rest are column defaults.
abbrev pub opened : ℤ → Account
opened amount = record {
  balance = amount;
  frozen = pos 0;
  total_earned = amount;
  total_spent = pos 0;
  prestige = zero64;
}

abbrev pub debit : ℤ → Account → Account
debit amount a = record a { balance = a.balance -ℤ amount; total_spent = a.total_spent +ℤ amount }

abbrev pub credit : ℤ → Account → Account
credit amount a = record a {
  balance = a.balance +ℤ amount;
  total_earned = a.total_earned +ℤ amount;
}

-- INSERT ... ON CONFLICT(peer_id) DO UPDATE, which credits an account and opens a missing one.
abbrev pub upsert_credit : String → ℤ → Table Account → Table Account
upsert_credit peer amount accounts =
    insert peer (elim (find peer accounts) [ none ↦ opened amount | some a ↦ credit amount a ])
      accounts

unfoldable pub ensure_credit_account : String → ℤ → Ledger → Ledger
ensure_credit_account peer initial l = record l {
  accounts = insert_new peer (opened initial) l.accounts;
}

-- A missing account reads as an empty one.
unfoldable pub get_credit_balance : String → Ledger → Account
get_credit_balance peer l = elim (find peer l.accounts) [ none ↦ opened (pos 0) | some a ↦ a ]

-- INSERT INTO credit_transactions, which fails on a used id; the caller's transaction rolls back.
abbrev record_transaction :
    String → Transaction → Table Account → Ledger → Ledger × Option StoreError
record_transaction id t accounts l =
    if contains id l.transactions
    then (l, some constraint_failed)
    else (record l { accounts = accounts; transactions = insert id t l.transactions }, none)

unfoldable pub transfer_credits :
    String → String → String → ℤ → String → String → Ledger → Ledger × Option StoreError
transfer_credits txn from to amount reason ref l = elim (find from l.accounts) [
  | none ↦ (l, some no_rows)
  | some sender ↦
      if ltb_ℤ sender.balance amount
      then (l, some insufficient_credits)
      else record_transaction txn
          (record {
            from_peer = from;
            to_peer = to;
            amount = amount;
            reason = reason;
            ref_id = ref;
          })
          (upsert_credit to amount (insert from (debit amount sender) l.accounts)) l
]

abbrev freeze : ℤ → Account → Account
freeze amount a = record a { balance = a.balance -ℤ amount; frozen = a.frozen +ℤ amount }

unfoldable pub freeze_credits : String → ℤ → Ledger → Ledger × Option StoreError
freeze_credits peer amount l = elim (find peer l.accounts) [
  | none ↦ (l, some no_rows)
  | some a ↦
      if ltb_ℤ a.balance amount
      then (l, some insufficient_credits)
      else (record l { accounts = insert peer (freeze amount a) l.accounts }, none)
]

-- UPDATE ... WHERE peer_id = ? AND frozen >= ?: with too little frozen it changes nothing, and
-- reports no error either.
abbrev unfreeze : ℤ → Account → Account
unfreeze amount a =
    if leb_ℤ amount a.frozen
    then record a { balance = a.balance +ℤ amount; frozen = a.frozen -ℤ amount }
    else a

unfoldable pub unfreeze_credits : String → ℤ → Ledger → Ledger
unfreeze_credits peer amount l = record l { accounts = update peer (unfreeze amount) l.accounts }

unfoldable pub add_credits : String → String → ℤ → String → Ledger → Ledger × Option StoreError
add_credits txn peer amount reason l =
    record_transaction txn
      (record {
        from_peer = "system";
        to_peer = peer;
        amount = amount;
        reason = reason;
        ref_id = "";
      })
      (upsert_credit peer amount l.accounts) l

abbrev burn : ℤ → Account → Account
burn amount a = if leb_ℤ amount a.balance then debit amount a else a

unfoldable pub burn_energy : String → ℤ → Ledger → Ledger
burn_energy peer amount l = record l { accounts = update peer (burn amount) l.accounts }

unfoldable pub log_credit_audit :
    String → String → String → String → ℤ → String → String → Ledger → Ledger
log_credit_audit txn task from to amount reason time l =
    let entry : AuditRecord = record {
      task_id = task;
      from_peer = from;
      to_peer = to;
      amount = amount;
      reason = reason;
      event_time = time;
    } in
    record l { audit_log = insert_new txn entry l.audit_log }
