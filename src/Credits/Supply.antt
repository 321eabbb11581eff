-- ===== src/Credits/Supply.antt =====
-- What each method of credits.go does to the supply: the Shell that all accounts hold together,
-- available or frozen.
use claw_net.Base.{
  Option, sym, if◌then◌else◌, String, ◌≡◌, none, some, inl, inr, ◌∙◌, arith, Option-cases,
  Bool-cases,
}
use claw_net.Base.Int.{ℤ, pos, ◌+ℤ◌, ◌-ℤ◌, leb_ℤ, int_laws, +ℤ_zero}
use claw_net.Base.Table.{Table, find, insert, contains, sum, sum-insert}
use claw_net.Credits.{
  StoreError, Account, Ledger, opened, credit, debit, upsert_credit, freeze, unfreeze,
  transfer_credits, freeze_credits, unfreeze_credits, add_credits, burn_energy,
  ensure_credit_account,
}

abbrev pub holdings : Account → ℤ
holdings a = a.balance +ℤ a.frozen

abbrev pub supply : Ledger → ℤ
supply l = sum holdings l.accounts

-- Writing a row over another moves the sum by the difference of the two.
pub sum-insert_over :
    (k : String) (u v : Account) (t : Table Account) (change : ℤ)
    → find k t ≡ some u
    → holdings v ≡ holdings u +ℤ change
    → sum holdings (insert k v t) ≡ sum holdings t +ℤ change
sum-insert_over k u v t change e h = grind (int_laws, sum-insert holdings k v t)

sum-insert_opened :
    (k : String) (v : Account) (t : Table Account)
    → find k t ≡ none
    → sum holdings (insert k v t) ≡ sum holdings t +ℤ holdings v
sum-insert_opened k v t e = grind (int_laws, sum-insert holdings k v t)

holdings-opened : (x : ℤ) → holdings (opened x) ≡ x
holdings-opened x = omega int_laws

holdings-credit : (x : ℤ) (a : Account) → holdings (credit x a) ≡ holdings a +ℤ x
holdings-credit x a = omega int_laws

holdings-debit : (x : ℤ) (a : Account) → holdings (debit x a) ≡ holdings a +ℤ (pos 0 -ℤ x)
holdings-debit x a = omega int_laws

holdings-freeze : (x : ℤ) (a : Account) → holdings (freeze x a) ≡ holdings a +ℤ pos 0
holdings-freeze x a = omega int_laws

holdings-unfreeze : (x : ℤ) (a : Account) → holdings (unfreeze x a) ≡ holdings a +ℤ pos 0
holdings-unfreeze x a = elim (Bool-cases (leb_ℤ x a.frozen)) [
  | inl e ↦ rw e (omega int_laws)
  | inr e ↦ rw e (omega int_laws)
]

pub sum-upsert_credit :
    (k : String) (x : ℤ) (t : Table Account)
    → sum holdings (upsert_credit k x t) ≡ sum holdings t +ℤ x
sum-upsert_credit k x t = elim (Option-cases (find k t)) [
  | inl e ↦ rw e (sum-insert_opened k (opened x) t e ∙ grind (int_laws, holdings-opened x))
  | inr (a, e) ↦ rw e (sum-insert_over k a (credit x a) t x e (holdings-credit x a))
]

sub_zero : (a : ℤ) → a +ℤ (pos 0 -ℤ pos 0) ≡ a
sub_zero a = omega int_laws

sum-moved :
    (from to : String) (x : ℤ) (a : Account) (t : Table Account)
    → find from t ≡ some a
    → sum holdings (upsert_credit to x (insert from (debit x a) t)) ≡ sum holdings t
sum-moved from to x a t e = grind (
  int_laws,
  sum-upsert_credit to x (insert from (debit x a) t),
  sum-insert_over from a (debit x a) t (pos 0 -ℤ x) e (holdings-debit x a),
)

-- A transfer neither makes nor loses Shell: whoever the two peers are, whatever the amount, and
-- whether it succeeds or fails.
pub transfer_credits-supply :
    (txn from to : String) (amount : ℤ) (reason ref : String) (l : Ledger)
    → supply (transfer_credits txn from to amount reason ref l).0 ≡ supply l
unfolding transfer_credits
transfer_credits-supply txn from to amount reason ref l =
    elim (Option-cases (find from l.accounts)) [
      | inl e ↦ ground arith
      | inr (a, e) ↦ ground (arith, sum-moved from to amount a l.accounts e)
    ]

-- Freezing moves Shell inside one account.
pub freeze_credits-supply :
    (peer : String) (amount : ℤ) (l : Ledger) → supply (freeze_credits peer amount l).0 ≡ supply l
unfolding freeze_credits
freeze_credits-supply peer amount l = elim (Option-cases (find peer l.accounts)) [
  | inl e ↦ ground arith
  | inr (a, e) ↦ ground (
    arith,
    sum-insert_over peer a (freeze amount a) l.accounts (pos 0) e (holdings-freeze amount a),
    +ℤ_zero (supply l),
  )
]

pub unfreeze_credits-supply :
    (peer : String) (amount : ℤ) (l : Ledger) → supply (unfreeze_credits peer amount l) ≡ supply l
unfolding unfreeze_credits
unfreeze_credits-supply peer amount l = elim (Option-cases (find peer l.accounts)) [
  | inl e ↦ ground arith
  | inr (a, e) ↦ ground (
    arith,
    sum-insert_over peer a (unfreeze amount a) l.accounts (pos 0) e (holdings-unfreeze amount a),
    +ℤ_zero (supply l),
  )
]

-- What an operation adds to the supply, by how it ended.
abbrev pub if_done : Option StoreError → ℤ → ℤ
if_done none x = x
if_done (some _) x = pos 0

pub add_credits-supply :
    (txn peer : String) (amount : ℤ) (reason : String) (l : Ledger)
    → let (l', e) = add_credits txn peer amount reason l in supply l' ≡ supply l +ℤ if_done e amount
unfolding add_credits
add_credits-supply txn peer amount reason l =
    ground (arith, sum-upsert_credit peer amount l.accounts, +ℤ_zero (supply l))

-- An account is opened with its initial balance, and an account that exists is left alone.
pub ensure_credit_account-supply :
    (peer : String) (initial : ℤ) (l : Ledger)
    → supply (ensure_credit_account peer initial l)
      ≡ supply l +ℤ (if contains peer l.accounts then pos 0 else initial)
unfolding ensure_credit_account
ensure_credit_account-supply peer initial l = elim (Option-cases (find peer l.accounts)) [
  | inl e ↦
      ground (arith, sum-insert_opened peer (opened initial) l.accounts e, holdings-opened initial)
  | inr (a, e) ↦ ground (arith, +ℤ_zero (supply l))
]

-- What `burn_energy` takes out of circulation.
abbrev pub burnt : String → ℤ → Ledger → ℤ
burnt peer amount l = elim (find peer l.accounts) [
  | none ↦ pos 0
  | some a ↦ if leb_ℤ amount a.balance then amount else pos 0
]

pub burn_energy-supply :
    (peer : String) (amount : ℤ) (l : Ledger)
    → supply (burn_energy peer amount l) ≡ supply l +ℤ (pos 0 -ℤ burnt peer amount l)
unfolding burn_energy
burn_energy-supply peer amount l = elim (Option-cases (find peer l.accounts)) [
  | inl e ↦ ground (arith, sub_zero (supply l))
  | inr (a, e) ↦ elim (Bool-cases (leb_ℤ amount a.balance)) [
    | inl enough ↦ ground (
      arith,
      sum-insert_over peer a (debit amount a) l.accounts (pos 0 -ℤ amount) e
          (holdings-debit amount a),
    )
    | inr short ↦ ground (
      arith,
      sum-insert_over peer a a l.accounts (pos 0) e (sym (+ℤ_zero (holdings a))),
      sub_zero (supply l),
      +ℤ_zero (supply l),
    )
  ]
]
