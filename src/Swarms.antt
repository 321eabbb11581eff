-- ===== src/Swarms.antt =====
-- Swarm Think sessions: clawnet-cli/internal/store/swarm.go without the searches. Foreign keys are
-- enforced. A status that is none of the three is refused by the column's CHECK and is not modelled.
-- Names and the descriptions of templates are for display.
use claw_net.Base.{
  ℕ, String, Bool, true, false, not, ◌&&◌, Option, none, some, List, [], ◌∷◌, take, if◌then◌else◌,
  ◌==◌,
}
use claw_net.Base.Int.{ℤ, pos}
use claw_net.Base.Table.{Table, find, insert, contains, update}
use claw_net.Float.{Float64}
use claw_net.Credits.{StoreError, constraint_failed}
use claw_net.Predictions.Market.{rows_where, text_le}
pub mod Expiry

pub data SwarmStatus : Type 0 where
  open_ synthesizing closed : SwarmStatus

pub record Swarm : Type 0 where
  pub id : String
  pub creator_id : String
  pub title : String
  pub question : String
  pub template_type : String
  pub domains : String
  pub max_participants : ℤ
  pub duration_min : ℤ
  pub deadline : String
  pub status : SwarmStatus
  pub synthesis : String

pub record SwarmContribution : Type 0 where
  pub id : String
  pub swarm_id : String
  pub author_id : String
  pub section : String
  pub perspective : String
  pub body : String
  pub confidence : Float64

pub record SwarmStore : Type 0 where
  pub swarms : Table Swarm
  pub contributions : Table SwarmContribution

pub record SwarmTemplate : Type 0 where
  pub kind : String
  pub default_domains : List String
  pub default_duration : ℤ

abbrev pub swarm_templates : List SwarmTemplate
swarm_templates =
    record {
      kind = "investment-analysis";
      default_domains = "finance" ∷ "investment" ∷ [];
      default_duration = pos 30;
    }
    ∷ record {
      kind = "tech-selection";
      default_domains = "technology" ∷ "engineering" ∷ [];
      default_duration = pos 45;
    }
    ∷ []

abbrev template_in : String → List SwarmTemplate → Option SwarmTemplate
template_in typ [] = none
template_in typ (t ∷ ts) = if t.kind == typ then some t else template_in typ ts

unfoldable pub get_swarm_template : String → Option SwarmTemplate
get_swarm_template typ = template_in typ swarm_templates

-- A new row has no synthesis yet.
unfoldable pub insert_swarm : Swarm → SwarmStore → SwarmStore
insert_swarm sw s = record s {
  swarms = elim (find sw.id s.swarms) [
    | none ↦ insert sw.id (record sw { synthesis = "" }) s.swarms
    | some old ↦
        insert sw.id
          (record old {
            title = sw.title;
            question = sw.question;
            template_type = sw.template_type;
            status = sw.status;
            deadline = sw.deadline;
          })
          s.swarms
  ];
}

unfoldable pub get_swarm : String → SwarmStore → Option Swarm
get_swarm id s = find id s.swarms

unfoldable pub insert_swarm_contribution :
    SwarmContribution → SwarmStore → SwarmStore × Option StoreError
insert_swarm_contribution c s =
    if contains c.id s.contributions
    then (s, none)
    else if contains c.swarm_id s.swarms
    then (record s { contributions = insert c.id c s.contributions }, none)
    else (s, some constraint_failed)

unfoldable pub list_swarm_contributions : String → ℕ → SwarmStore → List SwarmContribution
list_swarm_contributions id limit s =
    take limit (rows_where (λ c. c.swarm_id == id) s.contributions)

unfoldable pub synthesize_swarm : String → String → SwarmStore → SwarmStore
synthesize_swarm id synthesis s = record s {
  swarms = update id (λ sw. record sw { status = closed; synthesis = synthesis }) s.swarms;
}

abbrev pub is_open : SwarmStatus → Bool
is_open open_ = true
is_open _ = false

-- status = 'open' AND deadline != '' AND deadline < datetime('now'): a comparison of texts. A deadline has a T where the
-- current time has a space, so it counts as passed only from the next midnight UTC on.
abbrev pub has_expired : String → Swarm → Bool
has_expired now sw = is_open sw.status && (not (sw.deadline == "") && not (text_le now sw.deadline))

-- SELECT id FROM swarms WHERE ...
abbrev pub ids_where : (Swarm → Bool) → Table Swarm → List String
ids_where test [] = []
ids_where test ((id, sw) ∷ t) = if test sw then id ∷ ids_where test t else ids_where test t

abbrev pub shut : Swarm → Swarm
shut sw = record sw { status = closed }

unfoldable pub close_swarms : List String → Table Swarm → Table Swarm
close_swarms [] t = t
close_swarms (id ∷ ids) t = close_swarms ids (update id shut t)

-- The ids of the swarms that were closed stand beside the store.
unfoldable pub close_expired_swarms : String → SwarmStore → SwarmStore × List String
close_expired_swarms now s =
    let ids = ids_where (has_expired now) s.swarms in
    (record s { swarms = close_swarms ids s.swarms }, ids)
