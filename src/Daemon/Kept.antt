-- ===== src/Daemon/Kept.antt =====
-- What the steps of clawnet-cli/internal/daemon that several handlers share keep true of the
-- ledger.
use claw_net.Base.{String, inl, inr, ◌≡◌, ◌∙◌, arith, Option-cases, Bool-cases}
use claw_net.Base.Int.{ℤ, pos, ◌≤ℤ◌, ltb_ℤ}
use claw_net.Float.{Float64, Floats}
use claw_net.Credits.{Ledger, transfer_credits, freeze_credits, unfreeze_credits}
use claw_net.Credits.Prestige.{add_prestige, add_prestige-supply, add_prestige-IsSound}
use claw_net.Credits.Supply.{
  supply, transfer_credits-supply, freeze_credits-supply, unfreeze_credits-supply,
}
use claw_net.Credits.Soundness.{
  LedgerIsSound, transfer_credits-IsSound, freeze_credits-IsSound, unfreeze_credits-IsSound,
}
use claw_net.Tasks.{Task, get_task}
use claw_net.Daemon.Node.{
  Node, Env, Message, publish, publish_credit_audit, pay, unfreeze_reward, publish_task_update,
  republish, award_prestige,
}

-- A predicate that the payments of amounts that are not negative, and the gains of prestige, keep.
pub record IsKept (fl : Floats) (P : Ledger → Type 0) : Type 0 where
  pub transfer_keeps :
      (txn from to : String) (amount : ℤ) (reason ref : String) (l : Ledger)
      → pos 0 ≤ℤ amount
      → P l
      → P (transfer_credits txn from to amount reason ref l).0
  pub freeze_keeps :
      (peer : String) (amount : ℤ) (l : Ledger)
      → pos 0 ≤ℤ amount
      → P l
      → P (freeze_credits peer amount l).0
  pub unfreeze_keeps :
      (peer : String) (amount : ℤ) (l : Ledger)
      → pos 0 ≤ℤ amount
      → P l
      → P (unfreeze_credits peer amount l)
  pub prestige_keeps :
      (peer : String) (amount evaluator : Float64) (l : Ledger)
      → P l
      → P (add_prestige fl peer amount evaluator l)

-- The two instances: the supply stays what it is, and each account stays sound.
pub supply-IsKept : (fl : Floats) (s : ℤ) → IsKept fl (λ l. supply l ≡ s)
supply-IsKept fl s = record {
  transfer_keeps = λ txn from to amount reason ref l _ e.
      transfer_credits-supply txn from to amount reason ref l ∙ e;
  freeze_keeps = λ peer amount l _ e. freeze_credits-supply peer amount l ∙ e;
  unfreeze_keeps = λ peer amount l _ e. unfreeze_credits-supply peer amount l ∙ e;
  prestige_keeps = λ peer amount evaluator l e. add_prestige-supply fl peer amount evaluator l ∙ e;
}

pub soundness-IsKept : (fl : Floats) → IsKept fl LedgerIsSound
soundness-IsKept fl = record {
  transfer_keeps = transfer_credits-IsSound;
  freeze_keeps = freeze_credits-IsSound;
  unfreeze_keeps = unfreeze_credits-IsSound;
  prestige_keeps = add_prestige-IsSound fl;
}

-- Publishing touches no table.
pub publish-ledger : (env : Env) (m : Message) (n : Node) → (publish env m n).0.ledger ≡ n.ledger
unfolding publish
publish-ledger env m n = ground arith

pub publish_credit_audit-ledger :
    (env : Env) (txn task from to : String) (amount : ℤ) (reason : String) (n : Node)
    → (publish_credit_audit env txn task from to amount reason n).ledger ≡ n.ledger
unfolding publish_credit_audit
publish_credit_audit-ledger env txn task from to amount reason n = publish-ledger env _ n

pub publish_task_update-ledger :
    (env : Env) (t : Task) (n : Node) → (publish_task_update env t n).ledger ≡ n.ledger
unfolding publish_task_update
publish_task_update-ledger env t n = publish-ledger env _ _

pub republish-ledger : (env : Env) (id : String) (n : Node) → (republish env id n).ledger ≡ n.ledger
unfolding republish
republish-ledger env id n = elim (Option-cases (get_task id n.store)) [
  | inl e ↦ ground arith
  | inr (t, e) ↦ rw (e, republish) (publish_task_update-ledger env t n)
]

-- The ledger after a payment is the one after its transfer.
pub pay-ledger :
    (env : Env) (from to : String) (amount : ℤ) (reason task : String) (n : Node)
    → (pay env from to amount reason task n).ledger
      ≡ (transfer_credits (env.uuid n.uuids) from to amount reason task n.ledger).0
unfolding pay
pay-ledger env from to amount reason task n = publish_credit_audit-ledger env _ _ _ _ _ _ _

module _ (env : Env) (P : Ledger → Type 0) (kept : IsKept env.floats P) where
  open kept use {transfer_keeps, unfreeze_keeps, prestige_keeps}

  pub pay-Kept :
      (from to : String) (amount : ℤ) (reason task : String) (n : Node)
      → pos 0 ≤ℤ amount
      → P n.ledger
      → P (pay env from to amount reason task n).ledger
  pay-Kept from to amount reason task n h p =
      rw (pay-ledger env from to amount reason task n)
        (transfer_keeps _ from to amount reason task n.ledger h p)

  pub unfreeze_reward-Kept :
      (peer : String) (amount : ℤ) (n : Node)
      → P n.ledger
      → P (unfreeze_reward peer amount n).ledger
  unfolding unfreeze_reward
  unfreeze_reward-Kept peer amount n p = elim (Bool-cases (ltb_ℤ (pos 0) amount)) [
    | inl e ↦ rw e (unfreeze_keeps peer amount n.ledger (ground arith) p)
    | inr e ↦ rw e p
  ]

  pub award_prestige-Kept :
      (peer : String) (amount evaluator : Float64) (n : Node)
      → P n.ledger
      → P (award_prestige env peer amount evaluator n).ledger
  unfolding award_prestige
  award_prestige-Kept peer amount evaluator n p = prestige_keeps peer amount evaluator n.ledger p
