-- ===== src/Daemon/Swarms.antt =====
-- Swarm Think sessions of a node: `handleCreateSwarm`, `handleSwarmContribute` and `handleSwarmSynthesize` of
-- clawnet-cli/internal/daemon/phase2_api.go, and the swarm part of
-- clawnet-cli/internal/daemon/phase2_gossip.go. A handler returns the state and the status code of its
-- response; the body of a request is the value that it decodes to, `none` when that fails.
pub mod Ticks
mod Examples
use claw_net.Base.{
  ℕ, suc, String, Bool, true, false, not, ◌&&◌, ◌||◌, Option, none, some, List, [], ◌∷◌, ltb,
  if◌then◌else◌, ◌==◌,
}
use claw_net.Base.Int.{ℤ, pos, ltb_ℤ, eqb_ℤ}
use claw_net.Float.{Float64}
use claw_net.Credits.{StoreError}
use claw_net.Predictions.Market.{occurs, rows_where, texts}
use claw_net.Swarms.{
  Swarm, SwarmStatus, open_, SwarmContribution, SwarmStore, get_swarm_template, insert_swarm,
  get_swarm, insert_swarm_contribution, list_swarm_contributions, synthesize_swarm,
  close_expired_swarms,
}
use claw_net.Daemon.Node.{Node, Env, award_prestige, prestige_of, recalc_reputation, record_event}
use claw_net.Daemon.Milestones.{check_and_complete_milestone}
use claw_net.Daemon.Gossip.{gossip_author_ok}
use claw_net.Daemon.TaskApi.{ok, bad_request, internal_error}

-- `GossipSwarmMsg`, by its type; a synthesis of a swarm that is not stored carries none.
pub data SwarmMessage : Type 0 where
  swarm_msg : Swarm → SwarmMessage
  contribution_msg : SwarmContribution → SwarmMessage
  synthesis_msg : Option Swarm → SwarmMessage

-- A node with the tables of its swarms, and what it published on that topic.
pub record Swarming : Type 0 where
  pub node : Node
  pub swarms : SwarmStore
  pub sent : List SwarmMessage

-- Besides `Env`: whether the network takes a message, the time so many minutes from now as time.Format makes
-- it, datetime('now'), and the length of a text in bytes.
pub record SwarmEnv : Type 0 where
  pub env : Env
  pub carries : SwarmMessage → Bool
  pub deadline_in : ℤ → String
  pub now_sql : String
  pub byte_length : String → ℕ

-- The node's own count of contributions reads the same table.
abbrev with_swarms : SwarmStore → Swarming → Swarming
with_swarms s e = record e {
  swarms = s;
  node = record (e.node) {
    contributors = texts (λ c. c.author_id) (rows_where (λ _. true) s.contributions);
  };
}

module _ (m : SwarmEnv) where
  open m use {env, carries, deadline_in, now_sql, byte_length}

  abbrev peer_id : String
  peer_id = env.self

  abbrev send : SwarmMessage → Swarming → Swarming × Bool
  send msg e = if carries msg then (record e { sent = msg ∷ e.sent }, true) else (e, false)

  abbrev new_id : String → Swarming → String
  new_id id e = if id == "" then env.uuid e.node.uuids else id

  abbrev count_id : String → Swarming → Swarming
  count_id id e = record e {
    node = record (e.node) { uuids = if id == "" then suc e.node.uuids else e.node.uuids };
  }

  unfoldable pub publish_swarm : Swarm → Swarming → Swarming × Bool
  publish_swarm sw e =
      let sw' : Swarm = record sw {
        id = new_id sw.id e;
        creator_id = peer_id;
        status = open_;
        deadline =
            if ltb_ℤ (pos 0) sw.duration_min && (sw.deadline == "")
            then deadline_in sw.duration_min
            else sw.deadline;
      } in
      send (swarm_msg sw') (with_swarms (insert_swarm sw' e.swarms) (count_id sw.id e))

  abbrev stored_then_sent :
      SwarmContribution → Swarming → SwarmStore × Option StoreError → Swarming × Bool
  stored_then_sent c e (s, some _) = (with_swarms s e, false)
  stored_then_sent c e (s, none) = send (contribution_msg c) (with_swarms s e)

  unfoldable pub publish_swarm_contribution : SwarmContribution → Swarming → Swarming × Bool
  publish_swarm_contribution c e =
      let c' = record c { id = new_id c.id e; author_id = peer_id } in
      stored_then_sent c' (count_id c.id e) (insert_swarm_contribution c' e.swarms)

  unfoldable pub publish_swarm_synthesis : String → String → Swarming → Swarming × Bool
  publish_swarm_synthesis id synthesis e =
      let s = synthesize_swarm id synthesis e.swarms in
      send (synthesis_msg (get_swarm id s)) (with_swarms s e)

  -- What a template fills in; none where it is unknown.
  unfoldable pub apply_template : Swarm → Option Swarm
  apply_template sw =
      if not (sw.template_type == "") && not (sw.template_type == "freeform")
      then elim (get_swarm_template sw.template_type) [
        | none ↦ none
        | some t ↦ some (record sw {
          domains =
              if (sw.domains == "") || (sw.domains == "[]")
              then env.marshal t.default_domains
              else sw.domains;
          duration_min =
              if eqb_ℤ sw.duration_min (pos 0) && ltb_ℤ (pos 0) t.default_duration
              then t.default_duration
              else sw.duration_min;
        })
      ]
      else some (record sw {
        template_type = if sw.template_type == "" then "freeform" else sw.template_type;
      })

  unfoldable pub handle_create_swarm : Option Swarm → Swarming → Swarming × ℕ
  handle_create_swarm none e = (e, bad_request)
  handle_create_swarm (some sw) e =
      if (sw.title == "") || (sw.question == "")
      then (e, bad_request)
      else elim (apply_template sw) [
        | none ↦ (e, bad_request)
        | some sw' ↦
            let (e', sent) = publish_swarm sw' e in (e', (if sent then ok else internal_error))
      ]

  -- The body of a request to contribute: id, swarm and author are filled in.
  unfoldable pub handle_swarm_contribute :
      String → Option SwarmContribution → Swarming → Swarming × ℕ
  handle_swarm_contribute id none e = (e, bad_request)
  handle_swarm_contribute id (some c) e =
      if c.body == ""
      then (e, bad_request)
      else let (e', sent) =
          publish_swarm_contribution (record c { id = ""; swarm_id = id; author_id = "" }) e in
        if sent
        then (
          record e' {
            node =
                record_event "swarm_contribution" peer_id id
                  (check_and_complete_milestone env "first_swarm" e'.node).0;
          },
          ok,
        )
        else (e', internal_error)

  -- The loop over the contributions: `seen` holds the authors that it has met.
  unfoldable pub award_authors : Float64 → List String → List SwarmContribution → Node → Node
  award_authors evaluator seen [] n = n
  award_authors evaluator seen (c ∷ cs) n =
      if occurs c.author_id seen
      then award_authors evaluator seen cs n
      else award_authors evaluator (c.author_id ∷ seen) cs (
          award_prestige env c.author_id (env.floats.decimal (pos 5) 0) evaluator
            (recalc_reputation c.author_id n))

  unfoldable pub handle_swarm_synthesize : String → Option String → Swarming → Swarming × ℕ
  handle_swarm_synthesize id none e = (e, bad_request)
  handle_swarm_synthesize id (some synthesis) e =
      if synthesis == ""
      then (e, bad_request)
      else let (e', sent) = publish_swarm_synthesis id synthesis e in
        if sent
        then (
          record e' {
            node =
                award_authors (prestige_of peer_id e'.node) []
                  (list_swarm_contributions id 1000 e'.swarms) e'.node;
          },
          ok,
        )
        else (e', internal_error)

  unfoldable pub recalc_authors : List String → List SwarmContribution → Node → Node
  recalc_authors seen [] n = n
  recalc_authors seen (c ∷ cs) n =
      if occurs c.author_id seen
      then recalc_authors seen cs n
      else recalc_authors (c.author_id ∷ seen) cs (recalc_reputation c.author_id n)

  -- The loop over the swarms that were closed. None is a panic: the line that is printed takes the first
  -- 8 bytes of the id.
  unfoldable pub report_closed : List String → Swarming → Option Swarming
  report_closed [] e = some e
  report_closed (id ∷ ids) e = elim (ltb (byte_length id) 8) [
    | true ↦ none
    | false ↦
        report_closed ids
          (record e { node = recalc_authors [] (list_swarm_contributions id 1000 e.swarms) e.node })
  ]

  -- One tick of `swarmExpiryLoop`.
  unfoldable pub expire_swarms : Swarming → Option Swarming
  expire_swarms e =
      let (s, ids) = close_expired_swarms now_sql e.swarms in report_closed ids (with_swarms s e)

  -- What `handleSwarmSub` does with a message that another peer's node sent: `sender` signed it, and it is
  -- `none` where it does not decode.
  unfoldable pub receive_swarm_message : Bool → String → Option SwarmMessage → Swarming → Swarming
  receive_swarm_message from_self sender msg e = if from_self then e else elim msg [
    | none ↦ e
    | some (swarm_msg sw) ↦
        if gossip_author_ok sender sw.creator_id
        then with_swarms (insert_swarm sw e.swarms) e
        else e
    | some (contribution_msg c) ↦
        if gossip_author_ok sender c.author_id
        then with_swarms (insert_swarm_contribution c e.swarms).0 e
        else e
    | some (synthesis_msg none) ↦ e
    | some (synthesis_msg (some sw)) ↦
        if gossip_author_ok sender sw.creator_id
        then with_swarms (synthesize_swarm sw.id sw.synthesis e.swarms) e
        else e
  ]
