-- ===== src/Reputation/Score.antt =====
-- What `RecalcReputation` makes of a peer's record.
use claw_net.Base.{ℕ, suc, ◌+◌, ◌*◌, ◌-◌, ◌≡◌, arith, if◌then◌else◌}
use claw_net.Base.Int.{pos, ◌+ℤ◌, ◌-ℤ◌, ◌≤ℤ◌, ltb_ℤ, int_laws}
use claw_net.Reputation.{reputation_score}

cut_off :
    (a b : ℕ) → (if ltb_ℤ (pos a -ℤ pos b) (pos 0) then pos 0 else pos a -ℤ pos b) ≡ pos (a - b)
unfolding ◌-ℤ◌
cut_off a b = ground arith

regroup :
    (c f k n : ℕ)
    → pos 50 +ℤ pos (c * 5) -ℤ pos (f * 3) +ℤ pos (k * 2) +ℤ pos n
      ≡ pos (50 + c * 5 + k * 2 + n) -ℤ pos (f * 3)
regroup c f k n = omega int_laws

-- The score is 50 + 5 c + 2 k + n, less 3 f as far as that goes.
pub reputation_score_lem :
    (c f k n : ℕ) → reputation_score c f k n ≡ pos (50 + c * 5 + k * 2 + n - f * 3)
unfolding reputation_score
reputation_score_lem c f k n = rw (regroup c f k n) (cut_off (50 + c * 5 + k * 2 + n) (f * 3))

-- A score is never negative. Completing a task never lowers it and raises it by at most 5; failing
-- one never raises it and lowers it by at most 3; a contribution or a knowledge entry never lowers it.
pub reputation_score_moves :
    (c f k n : ℕ)
    → (pos 0 ≤ℤ reputation_score c f k n)
      × (reputation_score c f k n ≤ℤ reputation_score (suc c) f k n)
      × (reputation_score (suc c) f k n ≤ℤ reputation_score c f k n +ℤ pos 5)
      × (reputation_score c (suc f) k n ≤ℤ reputation_score c f k n)
      × (reputation_score c f k n ≤ℤ reputation_score c (suc f) k n +ℤ pos 3)
      × (reputation_score c f k n ≤ℤ reputation_score c f (suc k) n)
      × (reputation_score c f k n ≤ℤ reputation_score c f k (suc n))
reputation_score_moves c f k n =
    rw
      (
        reputation_score_lem c f k n,
        reputation_score_lem (suc c) f k n,
        reputation_score_lem c (suc f) k n,
        reputation_score_lem c f (suc k) n,
        reputation_score_lem c f k (suc n),
      )
      (omega int_laws)
