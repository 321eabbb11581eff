-- ===== src/Credits/History.antt =====
-- A ledger over time: any calls of the methods of credits.go, in any order.
use claw_net.Base.{sym, String, ◌≡◌, List, [], ◌∷◌, All, if◌then◌else◌, ◌∙◌}
use claw_net.Base.Int.{ℤ, pos, ◌+ℤ◌, ◌-ℤ◌, ◌≤ℤ◌, int_laws, +ℤ_zero}
use claw_net.Base.Table.{contains}
use claw_net.Credits.{
  Ledger, ensure_credit_account, transfer_credits, freeze_credits, unfreeze_credits, add_credits,
  burn_energy, log_credit_audit,
}
use claw_net.Credits.Supply.{
  supply, if_done, burnt, transfer_credits-supply, freeze_credits-supply, unfreeze_credits-supply,
  add_credits-supply, ensure_credit_account-supply, burn_energy-supply,
}
use claw_net.Credits.Soundness.{
  LedgerIsSound, transfer_credits-IsSound, freeze_credits-IsSound, unfreeze_credits-IsSound,
  add_credits-IsSound, ensure_credit_account-IsSound, burn_energy-IsSound,
}

-- A call of one of the methods, with its arguments.
pub data Call : Type 0 where
  ensure : String → ℤ → Call
  transfer : String → String → String → ℤ → String → String → Call
  freeze : String → ℤ → Call
  unfreeze : String → ℤ → Call
  add : String → String → ℤ → String → Call
  burn : String → ℤ → Call
  audit : String → String → String → String → ℤ → String → String → Call

abbrev pub amount_of : Call → ℤ
amount_of (ensure _ x) = x
amount_of (transfer _ _ _ x _ _) = x
amount_of (freeze _ x) = x
amount_of (unfreeze _ x) = x
amount_of (add _ _ x _) = x
amount_of (burn _ x) = x
amount_of (audit _ _ _ _ x _ _) = x

unfoldable pub call : Call → Ledger → Ledger
call (ensure peer x) l = ensure_credit_account peer x l
call (transfer txn from to x reason ref) l = (transfer_credits txn from to x reason ref l).0
call (freeze peer x) l = (freeze_credits peer x l).0
call (unfreeze peer x) l = unfreeze_credits peer x l
call (add txn peer x reason) l = (add_credits txn peer x reason l).0
call (burn peer x) l = burn_energy peer x l
call (audit txn task from to x reason time) l = log_credit_audit txn task from to x reason time l

-- What a call issues: the initial balance of an account that it opens, the amount that it adds, less
-- what it burns. No other call issues anything.
abbrev pub issued : Call → Ledger → ℤ
issued (ensure peer x) l = if contains peer l.accounts then pos 0 else x
issued (add txn peer x reason) l = if_done (add_credits txn peer x reason l).1 x
issued (burn peer x) l = pos 0 -ℤ burnt peer x l
issued _ l = pos 0

unfoldable pub calls : List Call → Ledger → Ledger
calls [] l = l
calls (c ∷ cs) l = calls cs (call c l)

abbrev pub issued_by : List Call → Ledger → ℤ
issued_by [] l = pos 0
issued_by (c ∷ cs) l = issued c l +ℤ issued_by cs (call c l)

call-supply : (c : Call) (l : Ledger) → supply (call c l) ≡ supply l +ℤ issued c l
unfolding call
call-supply (ensure peer x) l = ensure_credit_account-supply peer x l
call-supply (transfer txn from to x reason ref) l =
    transfer_credits-supply txn from to x reason ref l ∙ sym (+ℤ_zero (supply l))
call-supply (freeze peer x) l = freeze_credits-supply peer x l ∙ sym (+ℤ_zero (supply l))
call-supply (unfreeze peer x) l = unfreeze_credits-supply peer x l ∙ sym (+ℤ_zero (supply l))
call-supply (add txn peer x reason) l = add_credits-supply txn peer x reason l
call-supply (burn peer x) l = burn_energy-supply peer x l
call-supply (audit txn task from to x reason time) l =
    unfold log_credit_audit in sym (+ℤ_zero (supply l))

-- After any calls the supply is what it was at first, and what the calls issued.
pub calls-supply : (cs : List Call) (l : Ledger) → supply (calls cs l) ≡ supply l +ℤ issued_by cs l
unfolding calls
calls-supply [] l = sym (+ℤ_zero (supply l))
calls-supply (c ∷ cs) l = grind (int_laws, calls-supply cs (call c l), call-supply c l)

call-IsSound :
    (c : Call) (l : Ledger) → pos 0 ≤ℤ amount_of c → LedgerIsSound l → LedgerIsSound (call c l)
unfolding call
call-IsSound (ensure peer x) l h s = ensure_credit_account-IsSound peer x l h s
call-IsSound (transfer txn from to x reason ref) l h s =
    transfer_credits-IsSound txn from to x reason ref l h s
call-IsSound (freeze peer x) l h s = freeze_credits-IsSound peer x l h s
call-IsSound (unfreeze peer x) l h s = unfreeze_credits-IsSound peer x l h s
call-IsSound (add txn peer x reason) l h s = add_credits-IsSound txn peer x reason l h s
call-IsSound (burn peer x) l h s = burn_energy-IsSound peer x l h s
call-IsSound (audit txn task from to x reason time) l h s = unfold log_credit_audit in s

-- Any calls whose amounts are not negative keep every account of a sound ledger sound: no balance
-- and no frozen amount is ever negative, and what an account earned is what it holds, has frozen and
-- has spent.
pub calls-IsSound :
    (cs : List Call) (l : Ledger)
    → All (λ c. pos 0 ≤ℤ amount_of c) cs
    → LedgerIsSound l
    → LedgerIsSound (calls cs l)
unfolding calls
calls-IsSound [] l h s = s
calls-IsSound (c ∷ cs) l h s = calls-IsSound cs (call c l) h.1 (call-IsSound c l h.0 s)
