-- ===== src/Predictions/Payouts.antt =====
-- That winners are paid out of the stakes: clawnet-cli/internal/store/predictions.go.
use claw_net.Base.{
  ℕ, ◌+◌, ◌-◌, ◌*◌, ◌/◌, ◌≤◌, ◌<◌, String, ◌||◌, inl, inr, List, [], ◌∷◌, if◌then◌else◌, ◌==◌, ◌≡◌,
  refl, ◌∙◌, arith, Bool-cases, All,
}
use claw_net.Base.Int.{
  ℤ, pos, pos_part, ◌+ℤ◌, ◌≤ℤ◌, eqb_ℤ, two_63, wrap64_pos, *ℤ_pos, +ℤ_pos, -ℤ_pos, quot_pos,
  eq_pos_part, int_laws,
}
use claw_net.Predictions.{PredictionBet, pools, profit, profits, settle_prediction}

-- All that was staked, and what was staked on one option.
abbrev pub staked : List PredictionBet → ℕ
staked [] = 0
staked (b ∷ bs) = pos_part b.stake + staked bs

abbrev pub staked_on : String → List PredictionBet → ℕ
staked_on result [] = 0
staked_on result (b ∷ bs) =
    (if b.option == result then pos_part b.stake else 0) + staked_on result bs

abbrev pub IsStake : PredictionBet → Type 0
IsStake b = pos 0 ≤ℤ b.stake

abbrev pub total_profit : List (String × ℤ) → ℤ
total_profit [] = pos 0
total_profit (p ∷ ps) = p.1 +ℤ total_profit ps

staked_on-le : (result : String) (bs : List PredictionBet) → staked_on result bs ≤ staked bs
staked_on-le result [] = omega arith
staked_on-le result (b ∷ bs) = ground (arith, staked_on-le result bs)

pools_lem :
    (result : String) (t w : ℕ) (bs : List PredictionBet)
    → All IsStake bs
    → w ≤ t
    → t + staked bs < two_63
    → pools result (pos t) (pos w) bs ≡ (pos (t + staked bs), pos (w + staked_on result bs))
unfolding pools
pools_lem result t w [] h le fits = ground arith
pools_lem result t w (b ∷ bs) (nonneg, rest) le fits =
    let s = pos_part b.stake in
    rw (eq_pos_part b.stake nonneg, +ℤ_pos t s, wrap64_pos (t + s) (omega arith))
      (elim (Bool-cases (b.option == result)) [
        | inl on ↦
            rw (on, +ℤ_pos w s, wrap64_pos (w + s) (omega arith))
              (pools_lem result (t + s) (w + s) bs rest (omega arith) (omega arith) ∙ ground arith)
        | inr off ↦
            rw off (pools_lem result (t + s) w bs rest (omega arith) (omega arith) ∙ ground arith)
      ])

-- What a stake of s is paid of a pool of T, W of it on the winning option.
payout_bound : (s T W : ℕ) → 0 < W → (s * T / W) * W ≤ s * T
payout_bound s T W h = grind arith

payout_gains : (s T W : ℕ) → 0 < W → W ≤ T → s ≤ s * T / W
payout_gains s T W h le = grind arith

payout_small : (s T W : ℕ) → 0 < W → s * T / W ≤ s * T
payout_small s T W h = grind arith

profit_lem :
    (s T W : ℕ)
    → 0 < W
    → W ≤ T
    → s * T < two_63
    → profit (pos T) (pos W) (pos s) ≡ pos (s * T / W - s)
unfolding profit
profit_lem s T W h le fits =
    rw
      (
        *ℤ_pos s T,
        wrap64_pos (s * T) fits,
        quot_pos (s * T) W,
        -ℤ_pos (s * T / W) s (payout_gains s T W h le),
      )
      (wrap64_pos (s * T / W - s) (omega (arith, payout_small s T W h)))

-- All that the winners are paid, their stakes included.
abbrev paid : String → ℕ → ℕ → List PredictionBet → ℕ
paid result T W [] = 0
paid result T W (b ∷ bs) =
    (if b.option == result then pos_part b.stake * T / W else 0) + paid result T W bs

paid_bound :
    (result : String) (T W : ℕ) (bs : List PredictionBet)
    → 0 < W
    → paid result T W bs * W ≤ staked_on result bs * T
paid_bound result T W [] h = omega arith
paid_bound result T W (b ∷ bs) h = elim (Bool-cases (b.option == result)) [
  | inl on ↦
      rw on (grind (arith, paid_bound result T W bs h, payout_bound (pos_part b.stake) T W h))
  | inr off ↦ rw off (grind (arith, paid_bound result T W bs h))
]

fits_each : (s T : ℕ) → s ≤ T → T * T < two_63 → s * T < two_63
fits_each s T le h = grind arith

profits_lem :
    (result : String) (T W : ℕ) (bs : List PredictionBet)
    → 0 < W
    → W ≤ T
    → T * T < two_63
    → All IsStake bs
    → staked bs ≤ T
    → (total_profit (profits result (pos T) (pos W) bs) +ℤ pos (staked_on result bs)
        ≡ pos (paid result T W bs))
      × All (λ p. pos 0 ≤ℤ p.1) (profits result (pos T) (pos W) bs)
unfolding profits
profits_lem result T W [] h le fits stakes small = (omega int_laws, tt)
profits_lem result T W (b ∷ bs) h le fits (nonneg, stakes) small =
    let s = pos_part b.stake in
    let rest = profits_lem result T W bs h le fits stakes (omega arith) in
    let gain = profit_lem s T W h le (fits_each s T (omega arith) fits) in
    elim (Bool-cases (b.option == result)) [
      | inl on ↦
          rw (on, eq_pos_part b.stake nonneg, gain)
            (grind (int_laws, rest.0, payout_gains s T W h le), (omega arith, rest.1))
      | inr off ↦ rw off (grind (int_laws, rest.0), rest.1)
    ]

covered : (p w T W : ℕ) → 0 < W → w ≡ W → p * W ≤ w * T → p ≤ T
covered p w T W h q le = grind arith

less_than_square : (T : ℕ) → T * T < two_63 → T < two_63
less_than_square T h = grind arith

pools_lem_total :
    (result : String) (bets : List PredictionBet)
    → All IsStake bets
    → staked bets * staked bets < two_63
    → pools result (pos 0) (pos 0) bets ≡ (pos (staked bets), pos (staked_on result bets))
pools_lem_total result bets stakes fits =
    pools_lem result 0 0 bets stakes (omega arith)
      (omega (arith, less_than_square (staked bets) fits))
    ∙ ground arith

-- When no stake is negative and the square of all that was staked is within an int64, no profit that a
-- settlement computes is negative, and the computed profits of all winners with their own stakes are no more
-- than all that was staked. Where the paid profits come from is not stated.
pub settle_prediction_fits :
    (result : String) (bets : List PredictionBet)
    → All IsStake bets
    → staked bets * staked bets < two_63
    → let ps = settle_prediction result bets in
      All (λ p. pos 0 ≤ℤ p.1) ps
      × (total_profit ps +ℤ pos (staked_on result bets) ≤ℤ pos (staked bets))
unfolding settle_prediction
settle_prediction_fits result bets stakes fits =
    let T = staked bets in
    let W = staked_on result bets in
    rw (pools_lem_total result bets stakes fits)
      (elim (Bool-cases (eqb_ℤ (pos W) (pos 0) || eqb_ℤ (pos T) (pos 0))) [
        | inl none_won ↦ rw none_won (tt, omega (int_laws, staked_on-le result bets))
        | inr some_won ↦
            let h : 0 < W = ground arith in
            let le = staked_on-le result bets in
            let made = profits_lem result T W bets h le fits stakes (omega arith) in
            rw some_won (
              made.1,
              rw made.0 (
                  omega (
                    arith,
                    covered (paid result T W bets) W T W h refl (paid_bound result T W bets h),
                  )),
            )
      ])
