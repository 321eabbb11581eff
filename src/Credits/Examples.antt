-- ===== src/Credits/Examples.antt =====
-- Runs of the ledger on small data, and the theorems applied to them.
use claw_net.Base.{
  String, ◌≡◌, ◌≢◌, ◌↔◌, refl, none, some, false, List, [], ◌∷◌, arith, text_differs, ap, ◌≤◌,
}
use claw_net.Base.Int.{pos, ◌+ℤ◌, ◌-ℤ◌, ◌≤ℤ◌}
use claw_net.Base.Table.{find, insert, contains, sum}
use claw_net.Credits.{
  Account, Ledger, insufficient_credits, opened, credit, transfer_credits, freeze_credits,
  unfreeze_credits, add_credits, ensure_credit_account, burn_energy,
}
use claw_net.Credits.Supply.{supply}
use claw_net.Credits.Soundness.{LedgerIsSound}
use claw_net.Credits.Transfers.{
  transfer_credits_succeeds, transfer_credits_atomic, transfer_credits_effect, unfreeze-freeze,
}
use claw_net.Credits.History.{Call, call, calls, issued_by, calls-supply, calls-IsSound}
use claw_net.Credits.Tiers.{get_tier, Tops, lobster_tiers, get_tier_highest, get_tier_mono}

-- Two accounts, of which the first has some Shell frozen.
abbrev two_peers : Ledger
two_peers = record {
  accounts =
      (
        "ann",
        record {
          balance = pos 4000;
          frozen = pos 200;
          total_earned = pos 4200;
          total_spent = pos 0;
          prestige = 0;
        },
      )
      ∷ ("bob", opened (pos 100))
      ∷ [];
  transactions = [];
  audit_log = [];
}

two_peers-IsSound : LedgerIsSound two_peers
unfolding ◌+ℤ◌
two_peers-IsSound = ground arith

overdraft :
    transfer_credits "t1" "bob" "ann" (pos 101) "transfer" "" two_peers
    ≡ (two_peers, some insufficient_credits)
unfolding transfer_credits find
overdraft = refl

ann_ne_bob : ◌≢◌ {A = String} "ann" "bob"
ann_ne_bob = text_differs "ann" "bob" refl

transfer_credits_effect_test :
    find "bob" (transfer_credits "t1" "ann" "bob" (pos 30) "transfer" "" two_peers).0.accounts
    ≡ some (credit (pos 30) (opened (pos 100)))
unfolding find
transfer_credits_effect_test =
    (transfer_credits_effect "t1" "ann" "bob" (pos 30) "transfer" "" two_peers ann_ne_bob refl
      (omega arith) refl).1

transfer_credits_atomic_test :
    (transfer_credits "t1" "bob" "ann" (pos 101) "transfer" "" two_peers).0 ≡ two_peers
transfer_credits_atomic_test =
    transfer_credits_atomic "t1" "bob" "ann" (pos 101) "transfer" "" two_peers
      (ap (λ r. r.1) overdraft)

unfreeze-freeze_test :
    unfreeze_credits "ann" (pos 500) (freeze_credits "ann" (pos 500) two_peers).0 ≡ two_peers
unfolding find
unfreeze-freeze_test = unfreeze-freeze "ann" (pos 500) two_peers refl (omega arith) (omega arith)

abbrev day : List Call
day =
    Call.ensure "cyd" (pos 4200)
    ∷ Call.transfer "t1" "ann" "bob" (pos 1000) "transfer" ""
    ∷ Call.freeze "bob" (pos 1100)
    ∷ Call.burn "ann" (pos 5000)
    ∷ Call.burn "ann" (pos 1)
    ∷ Call.add "t1" "bob" (pos 7) "bonus"
    ∷ Call.add "t2" "bob" (pos 7) "bonus"
    ∷ Call.unfreeze "bob" (pos 1101)
    ∷ []

-- The second burn and the second grant count; the first of each is refused.
day_total : supply (calls day two_peers) ≡ pos 8506
unfolding calls call ensure_credit_account transfer_credits freeze_credits burn_energy add_credits
    unfreeze_credits find insert sum ◌+ℤ◌ ◌-ℤ◌
day_total = refl

calls-supply_example : supply (calls day two_peers) ≡ supply two_peers +ℤ issued_by day two_peers
calls-supply_example = calls-supply day two_peers

calls-IsSound_example : LedgerIsSound (calls day two_peers)
calls-IsSound_example = calls-IsSound day two_peers (omega arith) two_peers-IsSound

get_tier_highest_test : Tops (pos 8400) lobster_tiers (get_tier (pos 8400))
get_tier_highest_test = (get_tier_highest (pos 8400) (omega arith)).1

get_tier_mono_test : (get_tier (pos 4200)).level ≤ (get_tier (pos 8400)).level
get_tier_mono_test = get_tier_mono (pos 4200) (pos 8400) (omega arith)

tutorial_tier : (get_tier (pos 8400)).level ≡ 7
unfolding get_tier
tutorial_tier = refl

transfer_credits_succeeds_test :
    ((transfer_credits "t1" "ann" "bob" (pos 30) "transfer" "" two_peers).1 ≡ none) ↔ (
      (a : Account) × (find "ann" two_peers.accounts ≡ some a)
      × (pos 30 ≤ℤ a.balance)
      × (contains "t1" two_peers.transactions ≡ false))
transfer_credits_succeeds_test =
    transfer_credits_succeeds "t1" "ann" "bob" (pos 30) "transfer" "" two_peers
