-- ===== src/Overlay/Peers/Examples.antt =====
-- Calls on small tables of peers.
use claw_net.Base.{
  ℕ, zero, suc, ◌+◌, ◌*◌, ◌≤◌, String, true, none, some, List, [], ◌∷◌, ◌≡◌, ◌↔◌, refl, arith, All,
  text_differs,
}
use claw_net.Base.Table.{find, insert}
use claw_net.Base.Rows.{Distinct}
use claw_net.Overlay.Peers.{
  PeerState, Peers, peer_of, backoff_duration, should_retry, record_attempt, minute,
  new_peer_manager, merge_defaults, load,
}
use claw_net.Overlay.Peers.Refinement.{Call, probed, failed, run, run_one, run_refines, discovered}
use claw_net.Overlay.Peers.Health.{
  Unreached, lasting_peer_stays, discovered_peer_leaves, retry_after_backoff,
}

abbrev failing : PeerState
failing = record (peer_of "tcp://a:1" "discovered") { consec_fails = 3 }

abbrev peers : Peers
peers = ("tcp://a:1", failing) ∷ ("tcp://b:2", peer_of "tcp://b:2" "hardcoded") ∷ []

started :
    find "tcp://b:2" (new_peer_manager ("tcp://b:2" ∷ []) (some (("tcp://a:1", failing) ∷ [])))
    ≡ some (peer_of "tcp://b:2" "hardcoded")
unfolding new_peer_manager merge_defaults load find insert
started = refl

peers-Distinct : Distinct peers
unfolding find
peers-Distinct = (refl, (refl, tt))

abbrev silent : ℕ → List Call
silent zero = []
silent (suc n) = probed [] n ∷ silent n

calls : List Call
calls = failed "tcp://b:2" ∷ probed ("tcp://a:1" ∷ []) 5 ∷ discovered "tcp://c:3" ∷ []

run_refines_test :
    Distinct (run calls peers)
    × ((a : String) → find a (run calls peers) ≡ run_one a calls (find a peers))
run_refines_test = run_refines calls peers peers-Distinct

lasting_peer_stays_test :
    (st' : PeerState) × (find "tcp://b:2" (run calls peers) ≡ some st')
    × (st'.source ≡ "hardcoded")
    × (st'.address ≡ "tcp://b:2")
unfolding find
lasting_peer_stays_test =
    lasting_peer_stays calls peers "tcp://b:2" (peer_of "tcp://b:2" "hardcoded") peers-Distinct refl
      (text_differs "hardcoded" "discovered" refl)

silent-Unreached : (n : ℕ) → All (Unreached "tcp://a:1") (silent n)
silent-Unreached zero = tt
silent-Unreached (suc n) = (refl, silent-Unreached n)

discovered_peer_leaves_example : find "tcp://a:1" (run (silent 51) peers) ≡ none
unfolding find
discovered_peer_leaves_example =
    discovered_peer_leaves (silent 51) peers "tcp://a:1" failing peers-Distinct refl refl
      (silent-Unreached 51) (omega arith)

retry_after_backoff_test :
    ((should_retry "tcp://a:1" 900 (record_attempt "tcp://a:1" 100 peers) ≡ true)
      ↔ (100 + backoff_duration 3 ≤ 900))
    × (2 * minute ≤ backoff_duration 3)
    × (backoff_duration 3 ≤ 1440 * minute)
    × ((n : ℕ) → 3 ≤ n → backoff_duration 3 ≤ backoff_duration n)
unfolding find
retry_after_backoff_test = retry_after_backoff peers "tcp://a:1" failing 100 900 refl (omega arith)
