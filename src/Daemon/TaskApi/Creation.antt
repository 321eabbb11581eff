-- ===== src/Daemon/TaskApi/Creation.antt =====
-- What creating a task keeps true of the ledger: `handleCreateTask` of
-- clawnet-cli/internal/daemon/phase2_api.go.
use claw_net.Base.{
  ◌*◌, String, ◌||◌, Option, none, some, inl, inr, arith, Option-cases, Bool-cases, if◌then◌else◌,
  ◌==◌,
}
use claw_net.Base.Int.{ℤ, pos, negsuc, ◌≤ℤ◌, ◌<ℤ◌, ltb_ℤ, wrap64_pos, *ℤ_pos, quot_pos}
use claw_net.Credits.{Ledger, transfer_credits}
use claw_net.Tasks.{Task}
use claw_net.Daemon.Node.{Node, Env, record_event}
use claw_net.Daemon.Kept.{IsKept}
use claw_net.Daemon.Publishing.{filled, freeze_reward, publish_task}
use claw_net.Daemon.Publishing.Ledger.{publish_task-ledger, store_new-ledger}
use claw_net.Daemon.Milestones.{
  MilestoneDef, check_and_complete_milestone, complete_milestone, pay_milestone, check_achievements,
  achievement_checks,
}
use claw_net.Daemon.Milestones.Funding.{unlock_all-ledger, check_and_complete_milestone_cases}
use claw_net.Daemon.TaskApi.{task_fee, charge_fee, handle_create_task}

-- A reward whose fee is computed without overflow.
abbrev pub BodyFits : Option Task → Type 0
BodyFits none = Unit
BodyFits (some t) = t.reward <ℤ pos 1844674407370955161

pub task_fee_nonneg : (r : ℤ) → pos 0 ≤ℤ r → r <ℤ pos 1844674407370955161 → pos 0 ≤ℤ task_fee r
unfolding task_fee
task_fee_nonneg (pos r) h fits =
    rw (*ℤ_pos r 5, wrap64_pos (r * 5) (omega arith), quot_pos (r * 5) 100) (omega arith)
task_fee_nonneg (negsuc r) h fits = absurd (omega arith)

module _ (env : Env) (P : Ledger → Type 0) (kept : IsKept env.floats P) where
  open kept use {transfer_keeps, freeze_keeps}

  pub charge_fee-Kept :
      (reward : ℤ) (n : Node)
      → reward <ℤ pos 1844674407370955161
      → P n.ledger
      → P (charge_fee env reward n).0.ledger
  unfolding charge_fee
  charge_fee-Kept reward n fits p = elim (Bool-cases (ltb_ℤ (pos 0) reward)) [
    | inl paid ↦ elim (Bool-cases (ltb_ℤ reward (pos 100))) [
      | inl low ↦ rw (paid, low) p
      | inr enough ↦
          elim (Option-cases
            (transfer_credits (env.uuid n.uuids) env.self "system_burn" (task_fee reward) "task_fee"
              "" n.ledger).1) [
                | inl e ↦
                    rw (paid, enough, e)
                      (transfer_keeps _ _ _ _ _ _ n.ledger
                        (task_fee_nonneg reward (ground arith) fits) p)
                | inr (x, e) ↦
                    rw (paid, enough, e)
                      (transfer_keeps _ _ _ _ _ _ n.ledger
                        (task_fee_nonneg reward (ground arith) fits) p)
              ]
    ]
    | inr free ↦ rw free p
  ]

  pub freeze_reward-Kept :
      (reward : ℤ) (n : Node) → P n.ledger → P (freeze_reward env reward n).0.ledger
  unfolding freeze_reward
  freeze_reward-Kept reward n p = elim (Bool-cases (ltb_ℤ (pos 0) reward)) [
    | inl e ↦ rw e (freeze_keeps env.self reward n.ledger (ground arith) p)
    | inr e ↦ rw e p
  ]

  pub publish_task-Kept : (t : Task) (n : Node) → P n.ledger → P (publish_task env t n).0.ledger
  publish_task-Kept t n p =
      rw (publish_task-ledger env t n)
        (freeze_reward-Kept (filled env t n).reward _ (rw (store_new-ledger env t n) p))

  pub complete_milestone-Kept :
      (def : MilestoneDef) (id : String) (n : Node)
      → P n.ledger
      → P (complete_milestone env def id n).0.ledger
  unfolding complete_milestone check_achievements record_event pay_milestone
  complete_milestone-Kept def id n p =
      rw (unlock_all-ledger env (achievement_checks env) _)
        (elim (Bool-cases (ltb_ℤ (pos 0) def.reward)) [
          | inl e ↦ rw e (transfer_keeps _ _ _ def.reward _ _ n.ledger (ground arith) p)
          | inr e ↦ rw e p
        ])

  pub milestone-Kept :
      (id : String) (n : Node) → P n.ledger → P (check_and_complete_milestone env id n).0.ledger
  milestone-Kept id n p = elim (check_and_complete_milestone_cases env id n) [
    | inl nothing ↦ rw nothing p
    | inr (def, done) ↦ rw done (complete_milestone-Kept def id n p)
  ]

  pub handle_create_task-Kept :
      (body : Option Task) (n : Node)
      → BodyFits body
      → P n.ledger
      → P (handle_create_task env body n).0.ledger
  unfolding handle_create_task record_event
  handle_create_task-Kept none n fits p = p
  handle_create_task-Kept (some body) n fits p =
      let t = record body { mode = if body.mode == "auction" then "auction" else "simple" } in
      let charged = charge_fee-Kept t.reward n fits p in
      elim (Bool-cases (t.title == "" || ltb_ℤ t.reward (pos 0))) [
        | inl bad ↦ rw bad p
        | inr good ↦ rw good (elim (Option-cases (charge_fee env t.reward n).1) [
          | inr (code, e) ↦ rw e charged
          | inl e ↦
              rw e (elim (Option-cases (publish_task env t (charge_fee env t.reward n).0).1.0) [
                | inr (failed, f) ↦ rw f (publish_task-Kept t _ charged)
                | inl f ↦ rw f (milestone-Kept _ _ (publish_task-Kept t _ charged))
              ])
        ])
      ]
