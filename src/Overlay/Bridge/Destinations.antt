-- ===== src/Overlay/Bridge/Destinations.antt =====
-- Packets go only to the keys of their destinations.
use claw_net.Base.{
  ◌≡◌, refl, sym, true, false, ◌||◌, Option, none, some, List, [], ◌∷◌, Bytes, same_bytes, All,
  Bool-cases, Option-cases, inl, inr,
}
use claw_net.Overlay.Address.{overlay_address, array_of}
use claw_net.Overlay.Bridge.{
  Bridge, BridgeEvent, overlay_packet, path_found, peer_registered, tun_packet, key_timeout,
  buf_timeout, molt_call, unmolt_call, bridge_step, bridge_run, update_key, flush, write_to,
  new_bridge, handle_overlay_ipv6, on_path_notify, register_claw_peer, tun_read, destination,
  is_ipv6, in_overlay, may_talk,
}
use claw_net.Overlay.Bridge.Maps.{AllEntries, put-AllEntries, delete-AllEntries}

abbrev pub KeyFits : Bytes → Bytes → Type 0
KeyFits addr key = overlay_address key ≡ addr

-- An IPv6 packet for an address of the overlay.
abbrev pub PacketFits : Bytes → Bytes → Type 0
PacketFits addr packet =
    (destination packet ≡ addr) × (is_ipv6 packet ≡ true) × (in_overlay (destination packet) ≡ true)

abbrev pub SentFits : Bytes × Bytes → Type 0
SentFits (packet, key) = PacketFits (overlay_address key) packet

abbrev pub IsRouted : Bridge → Type 0
IsRouted b =
    AllEntries KeyFits b.addr_to_key × AllEntries PacketFits b.addr_buf × All SentFits b.sent

update_key-IsRouted : (key : Bytes) (b : Bridge) → IsRouted b → IsRouted (update_key key b).0
unfolding update_key
update_key-IsRouted key b (keys, waiting, sent) = (
  put-AllEntries KeyFits (overlay_address key) key b.addr_to_key refl keys,
  delete-AllEntries PacketFits (overlay_address key) b.addr_buf waiting,
  sent,
)

-- The packet that an update gives back is one for the key's address.
update_key_fits :
    (key packet : Bytes) (b : Bridge)
    → IsRouted b
    → (update_key key b).1 ≡ some packet
    → PacketFits (overlay_address key) packet
unfolding update_key
update_key_fits key packet b (keys, waiting, sent) e = waiting (overlay_address key) packet e

write_to-IsRouted :
    (packet key : Bytes) (b : Bridge)
    → PacketFits (overlay_address key) packet
    → IsRouted b
    → IsRouted (write_to packet key b)
write_to-IsRouted packet key b p (keys, waiting, sent) = (keys, waiting, (p, sent))

flush_update-IsRouted :
    (key : Bytes) (b : Bridge) → IsRouted b → IsRouted (flush key (update_key key b))
flush_update-IsRouted key b r = go (update_key key b).1 refl
  where
    go :
        (o : Option Bytes)
        → (update_key key b).1 ≡ o
        → IsRouted (flush key ((update_key key b).0, o))
    go none e = update_key-IsRouted key b r
    go (some packet) e =
        write_to-IsRouted packet key (update_key key b).0 (update_key_fits key packet b r e)
          (update_key-IsRouted key b r)

handle_overlay_ipv6-IsRouted :
    (from packet : Bytes) (b : Bridge) → IsRouted b → IsRouted (handle_overlay_ipv6 from packet b)
unfolding handle_overlay_ipv6
handle_overlay_ipv6-IsRouted from packet b r = elim (Bool-cases (is_ipv6 packet)) [
  | inr e ↦ rw e r
  | inl e ↦ elim (Bool-cases (may_talk from (update_key from b).0)) [
    | inl m ↦ rw (e, m) (update_key-IsRouted from b r)
    | inr m ↦ rw (e, m) (update_key-IsRouted from b r)
  ]
]

tun_read-IsRouted : (packet : Bytes) (b : Bridge) → IsRouted b → IsRouted (tun_read packet b)
unfolding tun_read
tun_read-IsRouted packet b (keys, waiting, sent) = elim (Bool-cases (is_ipv6 packet)) [
  | inr e ↦ rw e (keys, waiting, sent)
  | inl e ↦ elim (Bool-cases (in_overlay (destination packet))) [
    | inr o ↦ rw (e, o) (keys, waiting, sent)
    | inl o ↦ elim (Option-cases (b.addr_to_key (destination packet))) [
      | inl n ↦
          rw (e, o, n)
            (
              keys,
              put-AllEntries PacketFits (destination packet) packet b.addr_buf (refl, e, o) waiting,
              sent,
            )
      | inr (key, k) ↦ elim (Bool-cases (may_talk key b)) [
        | inr m ↦ rw (e, o, k, m) (keys, waiting, sent)
        | inl m ↦
            rw (e, o, k, m) (keys, waiting, ((sym (keys (destination packet) key k), e, o), sent))
      ]
    ]
  ]
]

bridge_step-IsRouted : (e : BridgeEvent) (b : Bridge) → IsRouted b → IsRouted (bridge_step e b)
unfolding bridge_step on_path_notify register_claw_peer
bridge_step-IsRouted (overlay_packet from packet) b r = handle_overlay_ipv6-IsRouted from packet b r
bridge_step-IsRouted (path_found key) b r = flush_update-IsRouted key b r
bridge_step-IsRouted (peer_registered key) b r =
    flush_update-IsRouted key
      (record b { claw_peers = λ k. same_bytes (array_of 32 key) k || b.claw_peers k }) r
bridge_step-IsRouted (tun_packet packet) b r = tun_read-IsRouted packet b r
bridge_step-IsRouted (key_timeout addr) b (keys, waiting, sent) =
    (delete-AllEntries KeyFits addr b.addr_to_key keys, waiting, sent)
bridge_step-IsRouted (buf_timeout addr) b (keys, waiting, sent) =
    (keys, delete-AllEntries PacketFits addr b.addr_buf waiting, sent)
bridge_step-IsRouted molt_call b r = r
bridge_step-IsRouted unmolt_call b r = r

bridge_run-IsRouted : (es : List BridgeEvent) (b : Bridge) → IsRouted b → IsRouted (bridge_run es b)
unfolding bridge_run
bridge_run-IsRouted [] b r = r
bridge_run-IsRouted (e ∷ es) b r =
    bridge_run-IsRouted es (bridge_step e b) (bridge_step-IsRouted e b r)

new_bridge-IsRouted : (own : Bytes) → IsRouted (new_bridge own)
unfolding new_bridge
new_bridge-IsRouted own =
    update_key-IsRouted own
      (record {
        addr_to_key = λ k. none;
        addr_buf = λ k. none;
        claw_peers = λ k. false;
        molted = false;
        to_tun = [];
        sent = [];
        lookups = [];
      })
      ((λ k v e. cc e), (λ k v e. cc e), tt)

-- Whatever comes to the bridge, in whatever order, its timers included: each packet that the bridge sends is an
-- IPv6 packet whose destination is the overlay address of the key that it is sent to, and in the overlay's
-- range; each key that the bridge knows is kept under its overlay address; and each packet that waits in it is
-- kept under its destination.
pub bridge_run_routes :
    (own : Bytes) (es : List BridgeEvent)
    → let b = bridge_run es (new_bridge own) in
      All SentFits b.sent
      × ((addr key : Bytes) → b.addr_to_key addr ≡ some key → overlay_address key ≡ addr)
      × ((addr packet : Bytes) → b.addr_buf addr ≡ some packet → destination packet ≡ addr)
bridge_run_routes own es =
    let (keys, waiting, sent) = bridge_run-IsRouted es (new_bridge own) (new_bridge-IsRouted own) in
    (sent, keys, λ addr packet e. (waiting addr packet e).0)
