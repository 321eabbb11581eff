-- ===== src/Credits/Prestige.antt =====
-- Prestige, in clawnet-cli/internal/store/credits.go: `AddPrestige`, `DecayAllPrestige` and the
-- profile that `GetEnergyProfile` reads.
use claw_net.Base.{
  ℕ, suc, ◌≤◌, String, ◌≡◌, refl, none, some, inl, inr, [], ◌∷◌, arith, length, Option-cases,
  Bool-cases, if◌then◌else◌,
}
use claw_net.Base.Int.{ℤ, pos, int_laws, +ℤ_zero}
use claw_net.Base.Table.{weight, weight-update, Table, find, update, sum}
use claw_net.Float.{Float64, Floats, zero64, less}
use claw_net.Credits.{Account, Ledger}
use claw_net.Credits.Tiers.{Tier, first_tier, get_tier}
use claw_net.Credits.Supply.{holdings, supply, sum-insert_over}
use claw_net.Credits.Soundness.{IsSound, LedgerIsSound, AllSound, update-AllSound}

-- `EnergyProfile`, without its peer id and its dates; RegenRate is 0 on every path.
pub record EnergyProfile : Type 0 where
  pub energy : ℤ
  pub frozen : ℤ
  pub prestige : Float64
  pub tier : Tier
  pub total_earned : ℤ
  pub total_spent : ℤ

unfoldable pub get_energy_profile : String → Ledger → EnergyProfile
get_energy_profile peer l = elim (find peer l.accounts) [
  | none ↦ record {
    energy = pos 0;
    frozen = pos 0;
    prestige = zero64;
    tier = first_tier;
    total_earned = pos 0;
    total_spent = pos 0;
  }
  | some a ↦ record {
    energy = a.balance;
    frozen = a.frozen;
    prestige = a.prestige;
    tier = get_tier a.balance;
    total_earned = a.total_earned;
    total_spent = a.total_spent;
  }
]

module _ (fl : Floats) where
  open fl use {add, sub, mul, div, exp, decimal}

  -- 0.1 + 0.9 * (1.0 - e^(-P/50))
  evaluator_weight : Float64 → Float64
  evaluator_weight p = add (decimal (pos 1) 1) (
      mul (decimal (pos 9) 1)
        (sub (decimal (pos 1) 0) (exp (div (sub zero64 p) (decimal (pos 50) 0)))))

  abbrev gain_prestige : Float64 → Account → Account
  gain_prestige gain a = record a { prestige = add a.prestige gain }

  unfoldable pub add_prestige : String → Float64 → Float64 → Ledger → Ledger
  unfolding evaluator_weight
  add_prestige peer amount evaluator l =
      let gain = mul amount (evaluator_weight evaluator) in
      if less gain (decimal (pos 1) 3)
      then l
      else record l { accounts = update peer (gain_prestige gain) l.accounts }

  -- UPDATE ... SET prestige = prestige * 0.998 WHERE prestige > 0.01, with the rows affected.
  decay_rows : Table Account → Table Account × ℕ
  decay_rows [] = ([], 0)
  decay_rows ((k, a) ∷ t) =
      let (t', n) = decay_rows t in
      if less (decimal (pos 1) 2) a.prestige
      then ((k, record a { prestige = mul a.prestige (decimal (pos 998) 3) }) ∷ t', suc n)
      else ((k, a) ∷ t', n)

  unfoldable pub decay_all_prestige : Ledger → Ledger × ℕ
  unfolding decay_rows
  decay_all_prestige l =
      let (accounts, n) = decay_rows l.accounts in (record l { accounts = accounts }, n)

  gain_prestige-IsSound :
      (gain : Float64) (a : Account) → IsSound a → IsSound (gain_prestige gain a)
  gain_prestige-IsSound gain a s = grind int_laws

  -- Prestige is not Shell: a gain changes neither the supply nor the soundness of an account.
  pub add_prestige-supply :
      (peer : String) (amount evaluator : Float64) (l : Ledger)
      → supply (add_prestige peer amount evaluator l) ≡ supply l
  unfolding add_prestige
  add_prestige-supply peer amount evaluator l = elim (Option-cases (find peer l.accounts)) [
    | inl e ↦ ground arith
    | inr (a, e) ↦
        let gain = mul amount (evaluator_weight evaluator) in
        ground (
          arith,
          sum-insert_over peer a (gain_prestige gain a) l.accounts (pos 0) e (omega int_laws),
          +ℤ_zero (supply l),
        )
  ]

  pub add_prestige-balance :
      (peer : String) (amount evaluator : Float64) (k : String) (l : Ledger)
      → weight (λ a. a.balance) (find k (add_prestige peer amount evaluator l).accounts)
        ≡ weight (λ a. a.balance) (find k l.accounts)
  unfolding add_prestige
  add_prestige-balance peer amount evaluator k l =
      let gain = mul amount (evaluator_weight evaluator) in
      elim (Bool-cases (less gain (decimal (pos 1) 3))) [
        | inl small ↦ rw small refl
        | inr large ↦
            rw large
              (weight-update (λ a. a.balance) (gain_prestige gain) peer k l.accounts (λ a. refl))
      ]

  pub add_prestige-IsSound :
      (peer : String) (amount evaluator : Float64) (l : Ledger)
      → LedgerIsSound l
      → LedgerIsSound (add_prestige peer amount evaluator l)
  unfolding add_prestige
  add_prestige-IsSound peer amount evaluator l s =
      let gain = mul amount (evaluator_weight evaluator) in
      elim (Bool-cases (less gain (decimal (pos 1) 3))) [
        | inl small ↦ rw small s
        | inr large ↦
            rw large
              (update-AllSound peer (gain_prestige gain) l.accounts (gain_prestige-IsSound gain) s)
      ]

  decay_rows-AllSound : (t : Table Account) → AllSound t → AllSound (decay_rows t).0
  unfolding decay_rows
  decay_rows-AllSound [] s = tt
  decay_rows-AllSound ((k, a) ∷ t) s = elim (Bool-cases (less (decimal (pos 1) 2) a.prestige)) [
    | inl e ↦ rw e (gain_lem a _ s.0, decay_rows-AllSound t s.1)
    | inr e ↦ rw e (s.0, decay_rows-AllSound t s.1)
  ]
    where
      gain_lem : (b : Account) (p : Float64) → IsSound b → IsSound (record b { prestige = p })
      gain_lem b p h = grind int_laws

  decay_rows-sum : (t : Table Account) → sum holdings (decay_rows t).0 ≡ sum holdings t
  unfolding decay_rows sum
  decay_rows-sum [] = refl
  decay_rows-sum ((k, a) ∷ t) = ground (arith, decay_rows-sum t)

  decay_rows-length : (t : Table Account) → length (decay_rows t).0 ≡ length t
  unfolding decay_rows
  decay_rows-length [] = refl
  decay_rows-length ((k, a) ∷ t) = ground (arith, decay_rows-length t)

  decay_rows-count : (t : Table Account) → (decay_rows t).1 ≤ length t
  unfolding decay_rows
  decay_rows-count [] = omega arith
  decay_rows-count ((k, a) ∷ t) = ground (arith, decay_rows-count t)

  -- A decay of the prestige of all accounts moves no Shell and keeps a sound ledger sound; it opens
  -- and drops no account, and reports at most as many rows as there are.
  pub decay_all_prestige_keeps :
      (l : Ledger)
      → LedgerIsSound l
      → let (l', n) = decay_all_prestige l in
        (supply l' ≡ supply l)
        × LedgerIsSound l'
        × (length l'.accounts ≡ length l.accounts)
        × (n ≤ length l.accounts)
  unfolding decay_all_prestige
  decay_all_prestige_keeps l s = (
    decay_rows-sum l.accounts,
    decay_rows-AllSound l.accounts s,
    decay_rows-length l.accounts,
    decay_rows-count l.accounts,
  )
