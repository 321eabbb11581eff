-- ===== src/Tasks/Earnings.antt =====
-- What `ExpectedEarnings` promises, as long as eighty times the reward fits an int64.
use claw_net.Base.{ℕ, suc, ◌+◌, ◌*◌, ◌/◌, ◌-◌, ◌≤◌, ◌<◌, ◌≡◌, arith, false}
use claw_net.Base.Int.{
  pos, ◌-ℤ◌, ◌*ℤ◌, ◌≤ℤ◌, leb_ℤ, two_63, wrap64_pos, *ℤ_pos, +ℤ_pos, quot_pos, int_laws,
}
use claw_net.Tasks.Window.{expected_earnings, share_pos}

-- A share never exceeds what is shared, taken as often as there are sharers.
pub shares_fit : (pool n : ℕ) → n * (pool / n) ≤ pool
shares_fit pool n = grind arith

-- 80 percent and 20 percent, each rounded down, are no more than the whole.
pub percents_fit : (r : ℕ) → r * 80 / 100 + r * 20 / 100 ≤ r
percents_fit r = omega arith

less_one : (n : ℕ) → pos (suc n) -ℤ pos 1 ≡ pos n
less_one n = omega int_laws

many : (n : ℕ) → 0 < n → leb_ℤ (pos (suc n)) (pos 1) ≡ false
many n h = ground arith

-- With at least two bidders, the estimate is what one of n + 1 equal bidders gets on average when one
-- of them is paid 80 percent and the others share 20 percent.
pub expected_earnings_lem :
    (r n : ℕ)
    → 0 < n
    → n < two_63 - 1
    → r * 80 < two_63
    → expected_earnings (pos r) (pos (suc n))
      ≡ pos ((r * 80 / 100 + n * (r * 20 / 100 / n)) / suc n)
unfolding expected_earnings
expected_earnings_lem r n some_rival fits h =
    rw
      (
        many n some_rival,
        share_pos r 80 h,
        share_pos r 20 (omega arith),
        less_one n,
        wrap64_pos n (omega arith),
        quot_pos (r * 20 / 100) n,
        *ℤ_pos n (r * 20 / 100 / n),
        wrap64_pos (n * (r * 20 / 100 / n)) (omega (arith, shares_fit (r * 20 / 100) n)),
        +ℤ_pos (r * 80 / 100) (n * (r * 20 / 100 / n)),
        wrap64_pos (r * 80 / 100 + n * (r * 20 / 100 / n))
            (omega (arith, shares_fit (r * 20 / 100) n)),
      )
      (quot_pos _ (suc n))

-- With at least two bidders, and eighty times the reward within an int64, all the bidders together are
-- never led to expect more than the reward.
pub expected_earnings-le_reward :
    (r n : ℕ)
    → 0 < n
    → n < two_63 - 1
    → r * 80 < two_63
    → pos (suc n) *ℤ expected_earnings (pos r) (pos (suc n)) ≤ℤ pos r
expected_earnings-le_reward r n some_rival fits h =
    rw (expected_earnings_lem r n some_rival fits h) (
      rw (*ℤ_pos (suc n) ((r * 80 / 100 + n * (r * 20 / 100 / n)) / suc n)) (
        omega (
          arith,
          shares_fit (r * 20 / 100) n,
          shares_fit (r * 80 / 100 + n * (r * 20 / 100 / n)) (suc n),
          percents_fit r,
        )))
