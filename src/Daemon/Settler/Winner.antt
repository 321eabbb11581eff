-- ===== src/Daemon/Settler/Winner.antt =====
-- Whom the settler picks: `pickWinnerByReputation` of clawnet-cli/internal/daemon/settler.go.
use claw_net.Base.{true, some, inl, inr, ◌⊎◌, List, [], ◌∷◌, ◌≡◌, refl, arith, Bool-cases, All}
use claw_net.Base.Int.{ℤ, pos, negsuc, ◌≤ℤ◌, ltb_ℤ}
use claw_net.Base.Table.{Table}
use claw_net.Reputation.{ReputationRecord, get_reputation}
use claw_net.Tasks.{TaskSubmission}
use claw_net.Daemon.Settler.{pick_from, pick_winner_by_reputation}

abbrev pub score_of : Table ReputationRecord → TaskSubmission → ℤ
score_of reps sub = (get_reputation sub.worker_id reps).score

-- The submission is one of the list.
abbrev pub IsOneOf : TaskSubmission → List TaskSubmission → Type 0
IsOneOf w [] = ⊥
IsOneOf w (s ∷ ss) = (w ≡ s) ⊎ IsOneOf w ss

-- No submission of the list has a higher score.
abbrev pub IsBest : Table ReputationRecord → TaskSubmission → List TaskSubmission → Type 0
IsBest reps w subs = All (λ s. score_of reps s ≤ℤ score_of reps w) subs

module _ (reps : Table ReputationRecord) where
  pick_from-IsBest :
      (b : TaskSubmission) (subs : List TaskSubmission)
      → (w : TaskSubmission) × (pick_from reps (some b) (score_of reps b) subs ≡ some w)
        × (score_of reps b ≤ℤ score_of reps w)
        × IsBest reps w subs
        × ((w ≡ b) ⊎ IsOneOf w subs)
  unfolding pick_from
  pick_from-IsBest b [] = (b, refl, omega arith, tt, inl refl)
  pick_from-IsBest b (s ∷ ss) = elim (Bool-cases (ltb_ℤ (score_of reps b) (score_of reps s))) [
    | inl higher ↦
        let (w, e, above, best, from) = pick_from-IsBest s ss in
        (w, rw higher e, ground arith, (above, best), inr from)
    | inr lower ↦
        let (w, e, above, best, from) = pick_from-IsBest b ss in
        (
          w,
          rw lower e,
          above,
          (ground arith, best),
          elim from [ inl q ↦ inl q | inr i ↦ inr (inr i) ],
        )
  ]

-- Among any submissions of which the first has a score of 0 or more, as every recalculated score is,
-- the settler picks one of them, and none has a higher score.
pub pick_winner_by_reputation-IsBest :
    (reps : Table ReputationRecord) (s : TaskSubmission) (ss : List TaskSubmission)
    → pos 0 ≤ℤ score_of reps s
    → (w : TaskSubmission) × (pick_winner_by_reputation (s ∷ ss) reps ≡ some w)
      × IsOneOf w (s ∷ ss)
      × IsBest reps w (s ∷ ss)
unfolding pick_winner_by_reputation pick_from
pick_winner_by_reputation-IsBest reps s ss nonneg =
    let (w, e, above, best, from) = pick_from-IsBest reps s ss in
    let first : ltb_ℤ (negsuc 0) (score_of reps s) ≡ true = ground arith in
    (w, rw first e, from, (above, best))
