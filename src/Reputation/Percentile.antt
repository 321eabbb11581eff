-- ===== src/Reputation/Percentile.antt =====
-- What `ReputationPercentile` promises.
use claw_net.Base.{
  ℕ, ◌*◌, ◌/◌, ◌≤◌, ◌<◌, String, some, [], ◌∷◌, ◌≡◌, inl, inr, arith, length, count, Bool-cases,
  ◌==◌,
}
use claw_net.Base.Int.{ℤ, ◌≤ℤ◌, ltb_ℤ}
use claw_net.Base.Table.{Table, find}
use claw_net.Reputation.{ReputationRecord, reputation_percentile}

below : ℤ → Table ReputationRecord → ℕ
below score t = count (λ r. ltb_ℤ r.1.score score) t

below-le : (x : ℤ) (t : Table ReputationRecord) → below x t ≤ length t
unfolding below
below-le x [] = omega arith
below-le x ((k, r) ∷ t) = ground (arith, below-le x t)

-- The peer's own row is not below it.
below-lt :
    (peer : String) {own : ReputationRecord} (t : Table ReputationRecord)
    → find peer t ≡ some own
    → below own.score t < length t
unfolding below find
below-lt peer [] e = absurd (ground arith)
below-lt peer {own} ((k, r) ∷ t) e = elim (Bool-cases (k == peer)) [
  | inl here ↦ ground (arith, below-le own.score t)
  | inr there ↦ ground (arith, below-lt peer {own = own} t (rw there at e))
]

below_mono : (x y : ℤ) (t : Table ReputationRecord) → x ≤ℤ y → below x t ≤ below y t
unfolding below
below_mono x y [] h = omega arith
below_mono x y ((k, r) ∷ t) h = ground (arith, below_mono x y t)

percent-le : (a n : ℕ) → a ≤ n → a * 100 / n ≤ 100
percent-le a n h = grind arith

percent-lt : (a n : ℕ) → a < n → a * 100 / n < 100
percent-lt a n h = grind arith

percent_mono : (a b n : ℕ) → a ≤ b → a * 100 / n ≤ b * 100 / n
percent_mono a b n h = grind arith

percentile_lem :
    (peer : String) {own : ReputationRecord} (t : Table ReputationRecord)
    → find peer t ≡ some own
    → 1 < length t
    → reputation_percentile peer t ≡ below own.score t * 100 / length t
unfolding reputation_percentile below
percentile_lem peer t e h = ground arith

-- Of two peers with a record, the one with the higher score has no lower percentile; and where there
-- is another record beside it, no recorded peer reaches 100.
pub reputation_percentile_order :
    (x y : String) {own other : ReputationRecord} (t : Table ReputationRecord)
    → find x t ≡ some own
    → find y t ≡ some other
    → own.score ≤ℤ other.score
    → 1 < length t
    → (reputation_percentile x t ≤ reputation_percentile y t) × (reputation_percentile y t < 100)
reputation_percentile_order x y {own} {other} t ex ey h many =
    rw (percentile_lem x t ex many, percentile_lem y t ey many)
      (
        percent_mono _ _ (length t) (below_mono own.score other.score t h),
        percent-lt _ (length t) (below-lt y t ey),
      )
