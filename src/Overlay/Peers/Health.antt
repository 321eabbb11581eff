-- ===== src/Overlay/Peers/Health.antt =====
-- Which peers stay in the table and when they are tried again.
use claw_net.Base.{
  ℕ, suc, ◌+◌, ◌*◌, ◌≤◌, String, true, false, Option, none, some, List, [], ◌∷◌, All, ◌≡◌, ◌≢◌, ◌↔◌,
  ◌∙◌, refl, arith, ltb, ◌==◌, Bool-cases, inl, inr, text_ne, text_refl, ap,
}
use claw_net.Base.Table.{find}
use claw_net.Base.Rows.{Distinct, edit_row, find-update}
use claw_net.Overlay.Peers.{
  PeerState, Peers, seen, missed, member, probe_peer, backoff_duration, should_retry,
  record_attempt, minute,
}
use claw_net.Overlay.Peers.Refinement.{
  Call, probed, attempted, succeeded, failed, discovered, call_one, run, run_one, run_refines,
}

-- A peer under `a` that was not discovered.
abbrev Lasting : PeerState → Option PeerState → Type 0
Lasting st o =
    (st' : PeerState) × (o ≡ some st') × (st'.source ≡ st.source) × (st'.address ≡ st.address)

call_keeps :
    (a : String) (c : Call) (st : PeerState)
    → (st.source == "discovered") ≡ false
    → Lasting st (call_one a c (some st))
unfolding probe_peer
call_keeps a (probed connected now) st h = elim (Bool-cases (member a connected)) [
  | inl e ↦ (seen now st, rw (e, h) refl, refl, refl)
  | inr e ↦ (missed st, rw (e, h) refl, refl, refl)
]
call_keeps a (attempted addr now) st h = elim (Bool-cases (addr == a)) [
  | inl e ↦ (record st { last_attempt = now }, rw e refl, refl, refl)
  | inr e ↦ (st, rw e refl, refl, refl)
]
call_keeps a (succeeded addr now) st h = elim (Bool-cases (addr == a)) [
  | inl e ↦ (seen now st, rw e refl, refl, refl)
  | inr e ↦ (st, rw e refl, refl, refl)
]
call_keeps a (failed addr) st h = elim (Bool-cases (addr == a)) [
  | inl e ↦ (missed st, rw e refl, refl, refl)
  | inr e ↦ (st, rw e refl, refl, refl)
]
call_keeps a (discovered addr) st h = (st, refl, refl, refl)

run_keeps :
    (a : String) (cs : List Call) (st : PeerState)
    → (st.source == "discovered") ≡ false
    → Lasting st (run_one a cs (some st))
unfolding run_one
run_keeps a [] st h = (st, refl, refl, refl)
run_keeps a (c ∷ cs) st h =
    let k = call_keeps a c st h in
    let r = run_keeps a cs k.0 (ap (λ x. x == "discovered") k.2 ∙ h) in
    (r.0, rw (k.1) (r.1), r.2 ∙ k.2, r.3 ∙ k.3)

-- A peer that is not discovered, one of the defaults or of the user, is never removed and keeps its source and its address,
-- whatever calls are made on a table in which every address stands once.
pub lasting_peer_stays :
    (cs : List Call) (t : Peers) (a : String) (st : PeerState)
    → Distinct t
    → find a t ≡ some st
    → st.source ≢ "discovered"
    → (st' : PeerState) × (find a (run cs t) ≡ some st')
      × (st'.source ≡ st.source)
      × (st'.address ≡ st.address)
lasting_peer_stays cs t a st d e h =
    rw ((run_refines cs t d).1 a, e) (run_keeps a cs st (text_ne st.source "discovered" h))

-- A call by which a peer is not reached: no probe finds it connected, no connection to it succeeds,
-- and it is not discovered again.
abbrev pub Unreached : String → Call → Type 0
Unreached a (probed connected now) = member a connected ≡ false
Unreached a (succeeded addr now) = (addr == a) ≡ false
Unreached a (discovered addr) = (addr == a) ≡ false
Unreached a (attempted addr now) = Unit
Unreached a (failed addr) = Unit

abbrev pub probes : List Call → ℕ
probes [] = 0
probes (probed connected now ∷ cs) = suc (probes cs)
probes (attempted addr now ∷ cs) = probes cs
probes (succeeded addr now ∷ cs) = probes cs
probes (failed addr ∷ cs) = probes cs
probes (discovered addr ∷ cs) = probes cs

absent_stays : (a : String) (cs : List Call) → All (Unreached a) cs → run_one a cs none ≡ none
unfolding run_one
absent_stays a [] h = refl
absent_stays a (probed connected now ∷ cs) h = absent_stays a cs h.1
absent_stays a (attempted addr now ∷ cs) h = elim (Bool-cases (addr == a)) [
  | inl e ↦ rw e (absent_stays a cs h.1)
  | inr e ↦ rw e (absent_stays a cs h.1)
]
absent_stays a (succeeded addr now ∷ cs) h = rw h.0 (absent_stays a cs h.1)
absent_stays a (failed addr ∷ cs) h = elim (Bool-cases (addr == a)) [
  | inl e ↦ rw e (absent_stays a cs h.1)
  | inr e ↦ rw e (absent_stays a cs h.1)
]
absent_stays a (discovered addr ∷ cs) h = rw h.0 (absent_stays a cs h.1)

leaves :
    (a : String) (cs : List Call) (st : PeerState)
    → (st.source == "discovered") ≡ true
    → All (Unreached a) cs
    → 1 ≤ probes cs
    → 51 ≤ probes cs + st.consec_fails
    → run_one a cs (some st) ≡ none
unfolding run_one probe_peer
leaves a [] st e h p q = absurd (omega arith)
leaves a (probed connected now ∷ cs) st e h p q = elim (Bool-cases (ltb 50 (st.consec_fails + 1))) [
  | inl g ↦ rw (run_one, call_one, edit_row, probe_peer, h.0, e, g) (absent_stays a cs h.1)
  | inr g ↦
      let few : st.consec_fails + 1 ≤ 50 = ground (arith, g) in
      rw (run_one, call_one, edit_row, probe_peer, h.0, e, g)
        (leaves a cs (missed st) e h.1 (omega arith) (omega arith))
]
leaves a (attempted addr now ∷ cs) st e h p q = elim (Bool-cases (addr == a)) [
  | inl s ↦ rw s (leaves a cs (record st { last_attempt = now }) e h.1 p q)
  | inr s ↦ rw s (leaves a cs st e h.1 p q)
]
leaves a (succeeded addr now ∷ cs) st e h p q = rw h.0 (leaves a cs st e h.1 p q)
leaves a (failed addr ∷ cs) st e h p q = elim (Bool-cases (addr == a)) [
  | inl s ↦ rw s (leaves a cs (missed st) e h.1 p (omega arith))
  | inr s ↦ rw s (leaves a cs st e h.1 p q)
]
leaves a (discovered addr ∷ cs) st e h p q = leaves a cs st e h.1 p q

-- A discovered peer of a table in which every address stands once is gone after any sequence of calls with at least 51
-- probes in which it is never found connected, no connection to it succeeds and it is not discovered again.
pub discovered_peer_leaves :
    (cs : List Call) (t : Peers) (a : String) (st : PeerState)
    → Distinct t
    → find a t ≡ some st
    → st.source ≡ "discovered"
    → All (Unreached a) cs
    → 51 ≤ probes cs
    → find a (run cs t) ≡ none
discovered_peer_leaves cs t a st d e h u p =
    rw ((run_refines cs t d).1 a, e) (leaves a cs st (rw h refl) u (omega arith) (omega arith))

backoff_duration-bounds :
    (n : ℕ) → (2 * minute ≤ backoff_duration n) × (backoff_duration n ≤ 1440 * minute)
unfolding backoff_duration
backoff_duration-bounds n = ground arith

backoff_duration_mono : (m n : ℕ) → m ≤ n → backoff_duration m ≤ backoff_duration n
unfolding backoff_duration
backoff_duration_mono m n h = ground arith

-- After an attempt at `start`, a peer that has failed is not tried again before its backoff has passed, which grows with its
-- failures from 2 minutes to 24 hours, and is tried again from then on.
pub retry_after_backoff :
    (t : Peers) (a : String) (st : PeerState) (start now : ℕ)
    → find a t ≡ some st
    → 1 ≤ st.consec_fails
    → ((should_retry a now (record_attempt a start t) ≡ true)
        ↔ (start + backoff_duration st.consec_fails ≤ now))
      × (2 * minute ≤ backoff_duration st.consec_fails)
      × (backoff_duration st.consec_fails ≤ 1440 * minute)
      × ((n : ℕ) → st.consec_fails ≤ n → backoff_duration st.consec_fails ≤ backoff_duration n)
unfolding should_retry record_attempt
retry_after_backoff t a st start now e h = (
  rw
      (
        should_retry,
        record_attempt,
        find-update a a (λ s. record s { last_attempt = start }) t,
        text_refl a,
        e,
      )
      (ground (arith, (backoff_duration-bounds st.consec_fails).0)),
  (backoff_duration-bounds st.consec_fails).0,
  (backoff_duration-bounds st.consec_fails).1,
  λ n k. backoff_duration_mono st.consec_fails n k,
)
