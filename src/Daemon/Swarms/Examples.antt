-- ===== src/Daemon/Swarms/Examples.antt =====
-- Ticks over small tables of swarms.
use Prim.Native.String.{count}
use claw_net.Base.{◌≤◌, ◌<◌, String, true, none, some, [], ◌∷◌, ◌≡◌, refl, if◌then◌else◌}
use claw_net.Base.Int.{pos}
use claw_net.Base.Table.{find}
use claw_net.Base.Rows.{change_row}
use claw_net.Swarms.{Swarm, open_, has_expired, shut, close_expired_swarms, get_swarm_template}
use claw_net.Swarms.Expiry.{row_passes}
use claw_net.Daemon.Examples.{env, node, offered}
use claw_net.Daemon.Swarms.{Swarming, SwarmEnv, expire_swarms, apply_template}
use claw_net.Daemon.Swarms.Ticks.{expire_swarms_outcome}

abbrev swarm_env : SwarmEnv
swarm_env = record {
  env = env;
  carries = λ m. true;
  deadline_in = λ n. "2026-01-01T00:30:00Z";
  now_sql = "2026-01-02 00:00:00";
  byte_length = count;
}

abbrev swarm : String → Swarm
swarm id = record {
  id = id;
  creator_id = "dan";
  title = "Which way?";
  question = "Left or right?";
  template_type = "freeform";
  domains = "[]";
  max_participants = pos 0;
  duration_min = pos 30;
  deadline = "2026-01-01T00:30:00Z";
  status = open_;
  synthesis = "";
}

abbrev late : Swarm
late = record (swarm "swarm-two") { deadline = "2026-01-02T00:00:00Z" }

abbrev swarming : Swarming
swarming = record {
  node = node offered;
  swarms = record {
    swarms = ("swarm-one", swarm "swarm-one") ∷ ("swarm-two", late) ∷ [];
    contributions = [];
  };
  sent = [];
}

-- At midnight the deadline of midnight has not passed.
first_only : (close_expired_swarms "2026-01-02 00:00:00" swarming.swarms).1 ≡ "swarm-one" ∷ []
unfolding close_expired_swarms
first_only = refl

unknown_template :
    apply_template swarm_env (record (swarm "s") { template_type = "tea-tasting" }) ≡ none
unfolding apply_template get_swarm_template
unknown_template = refl

expire_swarms_outcome_example :
    ((id : String)
      → row_passes (has_expired "2026-01-02 00:00:00") (find id swarming.swarms.swarms) ≡ true
      → count id < 8
      → expire_swarms swarm_env swarming ≡ none)
    × (((id : String)
          → row_passes (has_expired "2026-01-02 00:00:00") (find id swarming.swarms.swarms) ≡ true
          → 8 ≤ count id)
        → (e' : Swarming) × (expire_swarms swarm_env swarming ≡ some e')
          × (e'.node.ledger ≡ (node offered).ledger)
          × ((id : String)
              → let before = find id swarming.swarms.swarms in
                find id e'.swarms.swarms ≡ (
                  if row_passes (has_expired "2026-01-02 00:00:00") before
                  then change_row shut before
                  else before)))
unfolding find
expire_swarms_outcome_example = expire_swarms_outcome swarm_env swarming (refl, (refl, tt))
