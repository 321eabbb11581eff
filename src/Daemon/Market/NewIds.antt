-- ===== src/Daemon/Market/NewIds.antt =====
-- The ids of transactions: a uuid that is new stays new until it is given out. `AddCredits` and
-- `TransferCredits` of clawnet-cli/internal/store/credits.go.
use claw_net.Base.{
  ℕ, suc, ◌≤◌, String, none, ◌≡◌, ◌≢◌, ◌∙◌, refl, ap, arith, inl, inr, Bool-cases, Option-cases,
}
use claw_net.Base.Int.{ℤ, ◌+ℤ◌, ltb_ℤ}
use claw_net.Base.Table.{find, contains, find-insert_ne}
use claw_net.Credits.{Ledger, transfer_credits, add_credits}
use claw_net.Credits.Supply.{supply, if_done, add_credits-supply}
use claw_net.Daemon.Node.{Node, Env, pay, publish, publish_credit_audit}

-- A new uuid was never given out before.
abbrev pub UuidsDiffer : Env → Type 0
UuidsDiffer env = (j k : ℕ) → env.uuid j ≡ env.uuid k → j ≡ k

-- The transactions of a node have none of the ids that it will give out.
abbrev pub IdsAreNew : Env → Node → Type 0
IdsAreNew env n = (k : ℕ) → n.uuids ≤ k → find (env.uuid k) n.ledger.transactions ≡ none

pub transfer_credits-others :
    (txn from to : String) (amount : ℤ) (reason ref j : String) (l : Ledger)
    → txn ≢ j
    → find j (transfer_credits txn from to amount reason ref l).0.transactions
      ≡ find j l.transactions
unfolding transfer_credits
transfer_credits-others txn from to amount reason ref j l h =
    elim (Option-cases (find from l.accounts)) [
      | inl e ↦ rw (e, transfer_credits) refl
      | inr (a, e) ↦ elim (Bool-cases (ltb_ℤ a.balance amount)) [
        | inl s ↦ rw (transfer_credits, e, s) refl
        | inr s ↦ elim (Bool-cases (contains txn l.transactions)) [
          | inl u ↦ rw (transfer_credits, e, s, u) refl
          | inr u ↦ rw (transfer_credits, e, s, u) (find-insert_ne txn j _ l.transactions h)
        ]
      ]
    ]

pub add_credits-others :
    (txn peer : String) (amount : ℤ) (reason j : String) (l : Ledger)
    → txn ≢ j
    → find j (add_credits txn peer amount reason l).0.transactions ≡ find j l.transactions
unfolding add_credits
add_credits-others txn peer amount reason j l h = elim (Bool-cases (contains txn l.transactions)) [
  | inl u ↦ rw (add_credits, u) refl
  | inr u ↦ rw (add_credits, u) (find-insert_ne txn j _ l.transactions h)
]

pub add_credits-new :
    (txn peer : String) (amount : ℤ) (reason : String) (l : Ledger)
    → find txn l.transactions ≡ none
    → supply (add_credits txn peer amount reason l).0 ≡ supply l +ℤ amount
unfolding add_credits
add_credits-new txn peer amount reason l h =
    let r = add_credits-supply txn peer amount reason l in
    let q : (add_credits txn peer amount reason l).1 ≡ none = rw (add_credits, contains, h) refl in
    r ∙ ap (λ e. supply l +ℤ if_done e amount) q

pub publish_credit_audit-uuids :
    (env : Env) (txn task from to : String) (amount : ℤ) (reason : String) (n : Node)
    → (publish_credit_audit env txn task from to amount reason n).uuids ≡ n.uuids
unfolding publish_credit_audit publish
publish_credit_audit-uuids env txn task from to amount reason n = ground arith

pub pay-uuids :
    (env : Env) (from to : String) (x : ℤ) (why ref : String) (n : Node)
    → (pay env from to x why ref n).uuids ≡ suc n.uuids
unfolding pay
pay-uuids env from to x why ref n = publish_credit_audit-uuids env _ _ _ _ _ _ _
