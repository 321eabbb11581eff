-- ===== src/Overlay/Peers.antt =====
-- The health of overlay peers: clawnet-cli/internal/overlay/peermgr.go, and what it keeps in the database,
-- clawnet-cli/internal/store/overlay_peers.go. Times and durations are nanoseconds; the zero time is 0, and
-- clocks do not run before it. Counters are numbers without a bound.
use claw_net.Base.{
  ℕ, suc, ◌+◌, ◌-◌, ◌*◌, String, Bool, true, false, ◌&&◌, Option, none, some, List, [], ◌∷◌, leb,
  ltb, ◌==ℕ◌, ◌==◌, if◌then◌else◌,
}
use claw_net.Base.Table.{Table, find, insert, contains, update}
use claw_net.Base.Rows.{edit}
mod Refinement
mod Health
mod Examples

pub record PeerState : Type 0 where
  pub address : String
  pub source : String
  pub alive : Bool
  pub last_seen : ℕ
  pub last_attempt : ℕ
  pub consec_fails : ℕ
  pub total_conns : ℕ

abbrev pub max_consec_fails_discovered : ℕ
max_consec_fails_discovered = 50

abbrev pub minute : ℕ
minute = 60000000000

-- The peers of a PeerManager, by address.
abbrev pub Peers : Type 0
Peers = Table PeerState

abbrev pub peer_of : String → String → PeerState
peer_of addr source = record {
  address = addr;
  source = source;
  alive = false;
  last_seen = 0;
  last_attempt = 0;
  consec_fails = 0;
  total_conns = 0;
}

abbrev pub seen : ℕ → PeerState → PeerState
seen now st = record st {
  alive = true;
  last_seen = now;
  consec_fails = 0;
  total_conns = st.total_conns + 1;
}

abbrev pub missed : PeerState → PeerState
missed st = record st { alive = false; consec_fails = st.consec_fails + 1 }

abbrev pub member : String → List String → Bool
member a [] = false
member a (b ∷ bs) = if b == a then true else member a bs

-- One round of the loop of `probe`: none where the peer is removed.
unfoldable pub probe_peer : List String → ℕ → String → PeerState → Option PeerState
probe_peer connected now addr st =
    let st' = if member addr connected then seen now st else missed st in
    if (st'.source == "discovered") && ltb max_consec_fails_discovered st'.consec_fails
    then none
    else some st'

unfoldable pub probe : List String → ℕ → Peers → Peers
probe connected now peers = edit (probe_peer connected now) peers

unfoldable pub backoff_duration : ℕ → ℕ
backoff_duration consec_fails =
    if leb consec_fails 2
    then 2 * minute
    else if leb consec_fails 5
    then 5 * minute
    else if leb consec_fails 10
    then 30 * minute
    else if leb consec_fails 20
    then 120 * minute
    else 1440 * minute

unfoldable pub should_retry : String → ℕ → Peers → Bool
should_retry addr now peers = elim (find addr peers) [
  | none ↦ true
  | some st ↦
      if st.consec_fails ==ℕ 0
      then true
      else leb (backoff_duration st.consec_fails) (now - st.last_attempt)
]

unfoldable pub record_attempt : String → ℕ → Peers → Peers
record_attempt addr now peers = update addr (λ st. record st { last_attempt = now }) peers

unfoldable pub record_success : String → ℕ → Peers → Peers
record_success addr now peers = update addr (seen now) peers

unfoldable pub record_failure : String → Peers → Peers
record_failure addr peers = update addr missed peers

unfoldable pub add_discovered_peer : String → Peers → Peers
add_discovered_peer addr peers =
    if contains addr peers then peers else insert addr (peer_of addr "discovered") peers

abbrev pub count_alive : Peers → ℕ
count_alive [] = 0
count_alive ((_, st) ∷ t) = (if st.alive then 1 else 0) + count_alive t

-- `defaults` is DefaultOverlayPeers.
unfoldable pub merge_defaults : List String → Peers → Peers
merge_defaults [] peers = peers
merge_defaults (addr ∷ defaults) peers =
    merge_defaults defaults
      (if contains addr peers then peers else insert addr (peer_of addr "hardcoded") peers)

-- `loaded` is what LoadOverlayPeers returns: none for an error.
abbrev pub load_rows : Peers → Peers → Peers
load_rows [] peers = peers
load_rows ((addr, st) ∷ loaded) peers =
    load_rows loaded (insert addr (record st { address = addr; alive = false }) peers)

unfoldable pub load : Option Peers → Peers → Peers
load none peers = peers
load (some loaded) peers = load_rows loaded peers

unfoldable pub new_peer_manager : List String → Option Peers → Peers
new_peer_manager defaults loaded = merge_defaults defaults (load loaded [])
