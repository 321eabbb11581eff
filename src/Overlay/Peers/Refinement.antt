-- ===== src/Overlay/Peers/Refinement.antt =====
-- The table of peers is, for each address by itself, a peer or none.
use claw_net.Base.{
  ℕ, String, false, Option, none, some, List, [], ◌∷◌, ◌≡◌, refl, arith, ◌==◌, if◌then◌else◌,
  Bool-cases, Option-cases, inl, inr, text_same, text_refl,
}
use claw_net.Base.Table.{find, contains, find-insert}
use claw_net.Base.Rows.{
  Distinct, edit_row, change_row, find-update, update-Distinct, find-edit, edit-Distinct,
  insert-Distinct,
}
use claw_net.Overlay.Peers.{
  PeerState, Peers, peer_of, seen, missed, probe_peer, probe, record_attempt, record_success,
  record_failure, add_discovered_peer,
}

-- The calls that change the peers of a running manager.
pub data Call : Type 0 where
  probed : List String → ℕ → Call
  attempted : String → ℕ → Call
  succeeded : String → ℕ → Call
  failed : String → Call
  discovered : String → Call

unfoldable pub call : Call → Peers → Peers
call (probed connected now) peers = probe connected now peers
call (attempted addr now) peers = record_attempt addr now peers
call (succeeded addr now) peers = record_success addr now peers
call (failed addr) peers = record_failure addr peers
call (discovered addr) peers = add_discovered_peer addr peers

unfoldable pub run : List Call → Peers → Peers
run [] peers = peers
run (c ∷ cs) peers = run cs (call c peers)

-- The same call, on one peer.
abbrev pub call_one : String → Call → Option PeerState → Option PeerState
call_one a (probed connected now) o = edit_row (probe_peer connected now a) o
call_one a (attempted addr now) o =
    if addr == a then change_row (λ st. record st { last_attempt = now }) o else o
call_one a (succeeded addr now) o = if addr == a then change_row (seen now) o else o
call_one a (failed addr) o = if addr == a then change_row missed o else o
call_one a (discovered addr) none = if addr == a then some (peer_of a "discovered") else none
call_one a (discovered addr) (some st) = some st

unfoldable pub run_one : String → List Call → Option PeerState → Option PeerState
run_one a [] o = o
run_one a (c ∷ cs) o = run_one a cs (call_one a c o)

call_refines :
    (c : Call) (a : String) (t : Peers) → Distinct t → find a (call c t) ≡ call_one a c (find a t)
unfolding call probe record_attempt record_success record_failure add_discovered_peer
call_refines (probed connected now) a t d = find-edit (probe_peer connected now) a t d
call_refines (attempted addr now) a t d =
    find-update addr a (λ st. record st { last_attempt = now }) t
call_refines (succeeded addr now) a t d = find-update addr a (seen now) t
call_refines (failed addr) a t d = find-update addr a missed t
call_refines (discovered addr) a t d = elim (Option-cases (find addr t)) [
  | inl e ↦ elim (Bool-cases (addr == a)) [
    | inl s ↦
        let q : addr ≡ a = text_same addr a s in
        rw
          (
            call,
            add_discovered_peer,
            contains,
            e,
            find-insert addr a (peer_of addr "discovered") t,
            s,
            ← q,
            e,
            text_refl addr,
          )
          refl
    | inr s ↦
        rw
          (
            call,
            add_discovered_peer,
            contains,
            e,
            find-insert addr a (peer_of addr "discovered") t,
            s,
          )
          (untouched (find a t) s)
  ]
  | inr (st, e) ↦ elim (Bool-cases (addr == a)) [
    | inl s ↦
        let q : addr ≡ a = text_same addr a s in
        rw (call, add_discovered_peer, contains, e, ← q, e) refl
    | inr s ↦ rw (call, add_discovered_peer, contains, e) (untouched (find a t) s)
  ]
]
  where
    untouched : (o : Option PeerState) → (addr == a) ≡ false → o ≡ call_one a (discovered addr) o
    untouched none s = rw s refl
    untouched (some st) s = refl

call-Distinct : (c : Call) (t : Peers) → Distinct t → Distinct (call c t)
unfolding call probe record_attempt record_success record_failure add_discovered_peer
call-Distinct (probed connected now) t d = edit-Distinct (probe_peer connected now) t d
call-Distinct (attempted addr now) t d =
    update-Distinct addr (λ st. record st { last_attempt = now }) t d
call-Distinct (succeeded addr now) t d = update-Distinct addr (seen now) t d
call-Distinct (failed addr) t d = update-Distinct addr missed t d
call-Distinct (discovered addr) t d =
    ground (arith, d, insert-Distinct addr (peer_of addr "discovered") t)

-- From a table in which every address stands once, any sequence of calls leaves such a table, and what it holds for an
-- address is what the same calls make of the one peer, or of none, that it held for it before.
pub run_refines :
    (cs : List Call) (t : Peers)
    → Distinct t
    → Distinct (run cs t) × ((a : String) → find a (run cs t) ≡ run_one a cs (find a t))
unfolding run run_one
run_refines [] t d = (d, λ a. refl)
run_refines (c ∷ cs) t d =
    let r = run_refines cs (call c t) (call-Distinct c t d) in
    (r.0, λ a. rw (← call_refines c a t d) (r.1 a))
