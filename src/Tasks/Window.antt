-- ===== src/Tasks/Window.antt =====
-- The bidding window of clawnet-cli/internal/store/tasks.go: `ComputeBidClose`,
-- `ComputeWorkDeadline` and `ExpectedEarnings`, with int64 arithmetic that wraps.
--
-- A time.Time is a number of nanoseconds since the epoch, a time.Duration an int64 of nanoseconds.
use claw_net.Base.{ℕ, ◌+◌, ◌*◌, ◌/◌, ◌≤◌, ◌<◌, ◌≡◌, ap, if◌then◌else◌, arith}
use claw_net.Base.Int.{
  ℤ, pos, ◌+ℤ◌, ◌-ℤ◌, ◌*ℤ◌, ◌≤ℤ◌, ltb_ℤ, leb_ℤ, quot, wrap64, two_63, wrap64_pos, *ℤ_pos, +ℤ_pos,
  quot_pos, int_laws,
}
use Prim.Native.Nat.{min}

abbrev pub Time : Type 0
Time = ℤ

abbrev pub minutes : ℕ → ℕ
minutes n = n * 60000000000

abbrev pub bid_window_base : ℤ
bid_window_base = pos (minutes 30)

abbrev pub bid_window_extension : ℤ
bid_window_extension = pos (minutes 5)

abbrev pub bid_window_max : ℤ
bid_window_max = pos (minutes 240)

abbrev pub work_period : ℤ
work_period = pos (minutes 120)

abbrev pub winner_share_pct : ℤ
winner_share_pct = pos 80

abbrev pub consolation_share_pct : ℤ
consolation_share_pct = pos 20

-- `num_bids` is an int.
unfoldable pub compute_bid_close : Time → ℤ → Time
compute_bid_close created_at num_bids =
    let ext = wrap64 (num_bids *ℤ bid_window_extension) in
    let total = wrap64 (bid_window_base +ℤ ext) in
    created_at +ℤ (if ltb_ℤ bid_window_max total then bid_window_max else total)

unfoldable pub compute_work_deadline : Time → Time
compute_work_deadline bid_close = bid_close +ℤ work_period

-- reward * int64(pct) / 100
unfoldable pub share : ℤ → ℤ → ℤ
share reward pct = quot (wrap64 (reward *ℤ pct)) (pos 100)

unfoldable pub expected_earnings : ℤ → ℤ → ℤ
expected_earnings reward num_bids =
    let winner_pay = share reward winner_share_pct in
    let consolation_total = share reward consolation_share_pct in
    let others = wrap64 (num_bids -ℤ pos 1) in
    let consolation_each = quot consolation_total others in
    if leb_ℤ num_bids (pos 1)
    then reward
    else quot (wrap64 (winner_pay +ℤ wrap64 (others *ℤ consolation_each))) num_bids

capped : (a b : ℕ) → (if ltb_ℤ (pos b) (pos a) then pos b else pos a) ≡ pos (min a b)
capped a b = ground arith

-- For any number of bids that occurs the window is 30 minutes and 5 more for each bid, and at most
-- 4 hours; below 30744567 bids nothing overflows.
pub compute_bid_close_lem :
    (created_at : Time) (n : ℕ)
    → n < 30744567
    → compute_bid_close created_at (pos n)
      ≡ created_at +ℤ pos (min (minutes 30 + n * minutes 5) (minutes 240))
unfolding compute_bid_close
compute_bid_close_lem created_at n h =
    rw
      (
        *ℤ_pos n (minutes 5),
        wrap64_pos (n * minutes 5) (omega arith),
        +ℤ_pos (minutes 30) (n * minutes 5),
        wrap64_pos (minutes 30 + n * minutes 5) (omega arith),
      )
      (ap (λ (m : ℤ). created_at +ℤ m) (capped (minutes 30 + n * minutes 5) (minutes 240)))

pub share_pos : (r p : ℕ) → r * p < two_63 → share (pos r) (pos p) ≡ pos (r * p / 100)
unfolding share
share_pos r p h = rw (*ℤ_pos r p, wrap64_pos (r * p) h, quot_pos (r * p) 100)

-- Below 30744567 bids the window closes 30 minutes after the creation of the task at the earliest and 4
-- hours after it at the latest, and with more bids no earlier than with fewer.
pub compute_bid_close_bounds :
    (created_at : Time) (m n : ℕ)
    → m ≤ n
    → n < 30744567
    → (created_at +ℤ bid_window_base ≤ℤ compute_bid_close created_at (pos m))
      × (compute_bid_close created_at (pos m) ≤ℤ compute_bid_close created_at (pos n))
      × (compute_bid_close created_at (pos n) ≤ℤ created_at +ℤ bid_window_max)
compute_bid_close_bounds created_at m n le h =
    rw (compute_bid_close_lem created_at n h, compute_bid_close_lem created_at m (omega arith))
      (omega int_laws, omega int_laws, omega int_laws)
