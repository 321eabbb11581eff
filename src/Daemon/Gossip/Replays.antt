-- ===== src/Daemon/Gossip/Replays.antt =====
-- What repeated and late messages do: clawnet-cli/internal/daemon/phase2_gossip.go.
use claw_net.Base.{
  String, Bool, true, false, ◌&&◌, inl, inr, ◌≡◌, ◌≢◌, refl, ◌∙◌, ap, arith, Bool-cases,
  Option-cases, ◌==◌, text_ne,
}
use Prim.Native.String.{◌++◌}
use claw_net.Base.Int.{ℤ, pos, ltb_ℤ}
use claw_net.Base.Table.{Table, find, insert, insert_new, contains, find-insert_self}
use claw_net.Credits.{Ledger, AuditRecord, log_credit_audit, ensure_credit_account, add_credits}
use claw_net.Tasks.{Task}
use claw_net.Daemon.Node.{Node, Env}
use claw_net.Daemon.TaskApi.{settle_approved}
use claw_net.Daemon.Gossip.{pay_claimed, receive_credit_audit}

-- For a worker that is not the author, the automatic approval pays and credits exactly as the author's
-- own approval does.
pub pay_claimed_agrees :
    (env : Env) (id : String) (t : Task) (n : Node)
    → t.assigned_to ≢ t.author_id
    → pay_claimed env id t n ≡ settle_approved env id t n
unfolding pay_claimed settle_approved
pay_claimed_agrees env id t n ne =
    let other = text_ne t.assigned_to t.author_id ne in
    elim (Bool-cases (t.assigned_to == "")) [
      | inl nobody ↦ elim (Bool-cases (ltb_ℤ (pos 0) t.reward)) [
        | inl paid ↦ rw (other, nobody, paid) refl
        | inr free ↦ rw (other, nobody, free) refl
      ]
      | inr someone ↦ elim (Bool-cases (ltb_ℤ (pos 0) t.reward)) [
        | inl paid ↦ rw (other, someone, paid) refl
        | inr free ↦ rw (other, someone, free) refl
      ]
    ]

contains-insert : {V : Type 0} (k : String) (v : V) (t : Table V) → contains k (insert k v t) ≡ true
contains-insert k v t = ground (arith, find-insert_self k v t)

insert_new-key :
    {V : Type 0} (k : String) (v : V) (t : Table V) → contains k (insert_new k v t) ≡ true
insert_new-key k v t = elim (Option-cases (find k t)) [
  | inl e ↦ rw (e, insert_new) (contains-insert k v t)
  | inr (w, e) ↦ ground arith
]

insert_new-there :
    {V : Type 0} (k : String) (v : V) (t : Table V) → contains k t ≡ true → insert_new k v t ≡ t
insert_new-there k v t h = ground arith

module _ (txn : String) (peer : String) (amount : ℤ) (reason : String) (l : Ledger) where
  add_credits-used :
      contains txn l.transactions ≡ true → (add_credits txn peer amount reason l).0 ≡ l
  unfolding add_credits
  add_credits-used used = rw used refl

  -- After an issue under an id the id is used, an account that there was is there, and the audit log is
  -- the same.
  add_credits_after :
      contains peer l.accounts ≡ true
      → let l' = (add_credits txn peer amount reason l).0 in
        (contains txn l'.transactions ≡ true)
        × (contains peer l'.accounts ≡ true)
        × (l'.audit_log ≡ l.audit_log)
  unfolding add_credits
  add_credits_after there = elim (Bool-cases (contains txn l.transactions)) [
    | inl used ↦ rw used (used, there, refl)
    | inr fresh ↦
        rw fresh (contains-insert txn _ l.transactions, contains-insert peer _ l.accounts, refl)
  ]

module _ (env : Env) (txn : String) (a : AuditRecord) where
  open env use {self}

  logged : Ledger → Ledger
  logged l = log_credit_audit txn a.task_id a.from_peer a.to_peer a.amount a.reason a.event_time l

  logged-there : (l : Ledger) → contains txn l.audit_log ≡ true → logged l ≡ l
  unfolding logged log_credit_audit
  logged-there l there =
      ap (λ log. record l { audit_log = log }) (insert_new-there txn _ l.audit_log there)

  logged-key : (l : Ledger) → contains txn (logged l).audit_log ≡ true
  unfolding logged log_credit_audit
  logged-key l = insert_new-key txn _ l.audit_log

  opened_for : Ledger → Ledger
  opened_for l = ensure_credit_account self (pos 0) l

  opened_for-there : (l : Ledger) → contains self l.accounts ≡ true → opened_for l ≡ l
  unfolding opened_for ensure_credit_account
  opened_for-there l there =
      ap (λ accounts. record l { accounts = accounts }) (insert_new-there self _ l.accounts there)

  opened_for-key : (l : Ledger) → contains self (opened_for l).accounts ≡ true
  unfolding opened_for ensure_credit_account
  opened_for-key l = insert_new-key self _ l.accounts

  opened_for-audit : (l : Ledger) → (opened_for l).audit_log ≡ l.audit_log
  unfolding opened_for ensure_credit_account
  opened_for-audit l = refl

  received : Ledger → Ledger
  received l =
      (add_credits (txn ++ "_recv") self a.amount ("received_" ++ a.reason) (opened_for l)).0

  received-there :
      (l : Ledger)
      → contains self l.accounts ≡ true
      → contains (txn ++ "_recv") l.transactions ≡ true
      → received l ≡ l
  unfolding received
  received-there l there used =
      ap (λ m. (add_credits (txn ++ "_recv") self a.amount ("received_" ++ a.reason) m).0)
        (opened_for-there l there)
      ∙ add_credits-used (txn ++ "_recv") self a.amount ("received_" ++ a.reason) l used

  receive_twice : (l : Ledger) → received (logged (received (logged l))) ≡ received (logged l)
  unfolding received
  receive_twice l =
      let after =
        add_credits_after (txn ++ "_recv") self a.amount ("received_" ++ a.reason)
          (opened_for (logged l)) (opened_for-key (logged l)) in
      rw
        (logged-there (received (logged l))
          (ap (λ log. contains txn log) (after.2 ∙ opened_for-audit (logged l)) ∙ logged-key l))
        (received-there (received (logged l)) after.1 after.0)

-- Receiving a credit audit a second time changes nothing: it is not logged again, and its recipient is
-- not credited again.
pub receive_credit_audit_again :
    (env : Env) (rejected : Bool) (txn : String) (a : AuditRecord) (n : Node)
    → receive_credit_audit env rejected txn a (receive_credit_audit env rejected txn a n)
      ≡ receive_credit_audit env rejected txn a n
unfolding receive_credit_audit received opened_for logged
receive_credit_audit_again env true txn a n = refl
receive_credit_audit_again env false txn a n =
    elim (Bool-cases (a.to_peer == env.self && ltb_ℤ (pos 0) a.amount)) [
      | inl mine ↦ rw mine (ap (λ l. record n { ledger = l }) (receive_twice env txn a n.ledger))
      | inr other ↦ rw other (
          ap (λ l. record n { ledger = l })
            (logged-there env txn a (logged env txn a n.ledger) (logged-key env txn a n.ledger)))
    ]
