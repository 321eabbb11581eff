-- ===== src/Daemon/Milestones/Funding.antt =====
-- What completing a milestone comes to: clawnet-cli/internal/daemon/intuitive.go.
use claw_net.Base.{
  String, Bool, true, not, ◌&&◌, none, inl, inr, List, [], ◌∷◌, ◌==◌, ◌≡◌, refl, ◌∙◌, arith,
  Bool-cases, Option-cases, text_refl, ◌⊎◌,
}
use claw_net.Base.Int.{ℤ, pos, ltb_ℤ}
use claw_net.Base.Table.{find}
use claw_net.Credits.{Ledger, transfer_credits}
use claw_net.Daemon.Node.{Node, Env, record_event}
use claw_net.Daemon.Milestones.{
  has_key, add_key, MilestoneDef, milestone_definitions, find_milestone, unlock_if, unlock_all,
  check_achievements, achievement_checks, pay_milestone, complete_milestone,
  check_and_complete_milestone,
}

has_key-add_key :
    (id peer : String) (ks : List (String × String)) → has_key id peer (add_key id peer ks) ≡ true
unfolding add_key has_key
has_key-add_key id peer ks = ground (arith, text_refl id, text_refl peer)

unpaid :
    (txn to : String) (amount : ℤ) (reason ref : String) (l : Ledger)
    → find "system_milestone" l.accounts ≡ none
    → (transfer_credits txn "system_milestone" to amount reason ref l).0 ≡ l
unfolding transfer_credits
unpaid txn to amount reason ref l e = ground arith

module _ (env : Env) where
  open env use {self, uuid}

  unlock_all-keeps :
      (checks : List (String × (Node → Bool))) (n : Node)
      → ((unlock_all env checks n).milestones ≡ n.milestones)
        × ((unlock_all env checks n).ledger ≡ n.ledger)
  unfolding unlock_all unlock_if record_event
  unlock_all-keeps [] n = (refl, refl)
  unlock_all-keeps ((id, reached) ∷ checks) n =
      elim (Bool-cases (not (has_key id self n.achievements) && reached n)) [
        | inl e ↦ rw (e, unlock_all) (unlock_all-keeps checks _)
        | inr e ↦ rw (e, unlock_all) (unlock_all-keeps checks n)
      ]

  pub unlock_all-ledger :
      (checks : List (String × (Node → Bool))) (n : Node)
      → (unlock_all env checks n).ledger ≡ n.ledger
  unlock_all-ledger checks n = (unlock_all-keeps checks n).1

  complete_milestone-milestones :
      (def : MilestoneDef) (id : String) (n : Node)
      → (complete_milestone env def id n).0.milestones ≡ add_key id self n.milestones
  unfolding complete_milestone check_achievements record_event pay_milestone
  complete_milestone-milestones def id n =
      (unlock_all-keeps (achievement_checks env) _).0
      ∙ elim (Bool-cases (ltb_ℤ (pos 0) def.reward)) [ inl e ↦ rw e refl | inr e ↦ rw e refl ]

  complete_milestone-ledger :
      (def : MilestoneDef) (id : String) (n : Node)
      → find "system_milestone" n.ledger.accounts ≡ none
      → (complete_milestone env def id n).0.ledger ≡ n.ledger
  unfolding complete_milestone check_achievements record_event pay_milestone
  complete_milestone-ledger def id n none_there =
      (unlock_all-keeps (achievement_checks env) _).1
      ∙ elim (Bool-cases (ltb_ℤ (pos 0) def.reward)) [
        | inl e ↦
            rw e (unpaid (uuid n.uuids) self def.reward "milestone_reward" id n.ledger none_there)
        | inr e ↦ rw e refl
      ]

  -- How the check of a milestone can end.
  pub check_and_complete_milestone_cases :
      (id : String) (n : Node)
      → (check_and_complete_milestone env id n ≡ (n, pos 0))
        ⊎ ((def : MilestoneDef) × (check_and_complete_milestone env id n
              ≡ complete_milestone env def id n))
  unfolding check_and_complete_milestone
  check_and_complete_milestone_cases id n = elim (Bool-cases (has_key id self n.milestones)) [
    | inl before ↦ inl (rw before refl)
    | inr fresh ↦ elim (Option-cases (find_milestone id milestone_definitions)) [
      | inl unknown ↦ inl (rw (fresh, unknown) refl)
      | inr (def, found) ↦ elim (Bool-cases (id == "tutorial")) [
        | inl t ↦ inl (rw (fresh, found, t) refl)
        | inr other ↦ inr (def, rw (fresh, found, other) refl)
      ]
    ]
  ]

  done_before :
      (id : String) (n : Node)
      → has_key id self n.milestones ≡ true
      → check_and_complete_milestone env id n ≡ (n, pos 0)
  unfolding check_and_complete_milestone
  done_before id n e = rw e refl

-- The account system_milestone is what rewards are paid from. Without such an account, completing a
-- milestone leaves the ledger as it is, whichever milestone it is, and whatever reward is reported.
pub milestone_unpaid :
    (env : Env) (id : String) (n : Node)
    → find "system_milestone" n.ledger.accounts ≡ none
    → (check_and_complete_milestone env id n).0.ledger ≡ n.ledger
milestone_unpaid env id n e = elim (check_and_complete_milestone_cases env id n) [
  | inl nothing ↦ rw nothing refl
  | inr (def, done) ↦ rw done (complete_milestone-ledger env def id n e)
]

-- A milestone is completed at most once: checked again right after, it changes nothing and reports no
-- reward, unless it is one that the first check left alone as well, with no reward.
pub milestone_once :
    (env : Env) (id : String) (n : Node)
    → let n' = (check_and_complete_milestone env id n).0 in
      check_and_complete_milestone env id n' ≡ (n', pos 0)
milestone_once env id n = elim (check_and_complete_milestone_cases env id n) [
  | inl nothing ↦ rw nothing nothing
  | inr (def, done) ↦ rw done (
      done_before env id (complete_milestone env def id n).0 (
        rw (complete_milestone-milestones env def id n) (has_key-add_key id env.self n.milestones)))
]
