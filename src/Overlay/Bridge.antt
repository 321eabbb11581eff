-- ===== src/Overlay/Bridge.antt =====
-- IPv6 packets between the TUN device and the overlay: clawnet-cli/internal/overlay/ipv6rwc.go, with the known
-- peers and the molted state of clawnet-cli/internal/overlay/transport.go. Maps from addresses are functions;
-- the timers that delete their entries after two minutes are steps of their own, at any time. What the
-- network and the device are given is kept, the latest first; their errors are only printed.
use claw_net.Base.{
  ℕ, ◌-◌, ◌/◌, ◌%◌, Bool, true, false, not, ◌&&◌, ◌||◌, same_bytes, Option, none, some, List, [],
  ◌∷◌, Bytes, length, take, drop, leb, ◌==ℕ◌, if◌then◌else◌,
}
use claw_net.Overlay.Address.{overlay_address, partial_key_for_addr, array_of}
pub mod Maps
pub mod Destinations
pub mod Buffered
mod Examples

abbrev pub ByteMap : Type 0 → Type 0
ByteMap V = Bytes → Option V

abbrev pub put : {V : Type 0} → Bytes → V → ByteMap V → ByteMap V
put k v m = λ j. if same_bytes k j then some v else m j

abbrev pub delete : {V : Type 0} → Bytes → ByteMap V → ByteMap V
delete k m = λ j. if same_bytes k j then none else m j

-- `keyStore` with what `Transport` keeps beside it.
pub record Bridge : Type 0 where
  pub addr_to_key : ByteMap Bytes
  pub addr_buf : ByteMap Bytes
  pub claw_peers : Bytes → Bool
  pub molted : Bool
  pub to_tun : List Bytes
  pub sent : List (Bytes × Bytes)
  pub lookups : List Bytes

-- `keyStore.update`: the packet that waited for the key's address comes back.
unfoldable pub update_key : Bytes → Bridge → Bridge × Option Bytes
update_key key b =
    let addr = overlay_address key in
    (
      record b { addr_to_key = put addr key b.addr_to_key; addr_buf = delete addr b.addr_buf },
      b.addr_buf addr,
    )

abbrev pub write_to : Bytes → Bytes → Bridge → Bridge
write_to packet key b = record b { sent = (packet, key) ∷ b.sent }

-- The packet, if there is one, is sent to the key.
abbrev pub flush : Bytes → Bridge × Option Bytes → Bridge
flush key (b, none) = b
flush key (b, some packet) = write_to packet key b

-- `newIPv6RWC`
unfoldable pub new_bridge : Bytes → Bridge
unfolding update_key
new_bridge own =
    (update_key own (record {
      addr_to_key = λ k. none;
      addr_buf = λ k. none;
      claw_peers = λ k. false;
      molted = false;
      to_tun = [];
      sent = [];
      lookups = [];
    })).0

-- `IsClawPeer`
abbrev pub is_claw_peer : Bytes → Bridge → Bool
is_claw_peer key b = b.claw_peers (array_of 32 key)

-- Molted, or a known peer.
abbrev pub may_talk : Bytes → Bridge → Bool
may_talk key b = b.molted || is_claw_peer key b

abbrev pub version : Bytes → ℕ
version [] = 0
version (x ∷ _) = x / 16

abbrev pub is_ipv6 : Bytes → Bool
is_ipv6 packet = leb 40 (length packet) && (version packet ==ℕ 6)

unfoldable pub handle_overlay_ipv6 : Bytes → Bytes → Bridge → Bridge
unfolding update_key
handle_overlay_ipv6 from packet b =
    let b' = (update_key from b).0 in
    if not (is_ipv6 packet)
    then b
    else if not (may_talk from b')
    then b'
    else record b' { to_tun = packet ∷ b'.to_tun }

unfoldable pub on_path_notify : Bytes → Bridge → Bridge
unfolding update_key
on_path_notify key b = flush key (update_key key b)

-- `RegisterClawPeer`
unfoldable pub register_claw_peer : Bytes → Bridge → Bridge
unfolding update_key same_bytes
register_claw_peer key b = flush key (
    update_key key
      (record b { claw_peers = λ k. same_bytes (array_of 32 key) k || b.claw_peers k }))

-- Bytes 24 to 39.
abbrev pub destination : Bytes → Bytes
destination packet = take 16 (drop 24 packet)

-- In 200::/7: the first byte with its last bit cleared is 2.
abbrev pub in_overlay : Bytes → Bool
in_overlay [] = false
in_overlay (x ∷ _) = (x - x % 2) ==ℕ 2

-- A key that is looked up waits for the answer: one packet for each destination.
abbrev pub buffer_packet : Bytes → Bytes → Bridge → Bridge
buffer_packet addr packet b = record b {
  lookups = partial_key_for_addr addr ∷ b.lookups;
  addr_buf = put addr packet b.addr_buf;
}

-- One round of `tunReadLoop`.
unfoldable pub tun_read : Bytes → Bridge → Bridge
tun_read packet b =
    let addr = destination packet in
    if not (is_ipv6 packet)
    then b
    else if not (in_overlay addr)
    then b
    else (elim (b.addr_to_key addr) [
      | none ↦ buffer_packet addr packet b
      | some key ↦ if not (may_talk key b) then b else write_to packet key b
    ])

-- What happens on a node, the firing of a timer included.
pub data BridgeEvent : Type 0 where
  overlay_packet : Bytes → Bytes → BridgeEvent
  path_found : Bytes → BridgeEvent
  peer_registered : Bytes → BridgeEvent
  tun_packet : Bytes → BridgeEvent
  key_timeout : Bytes → BridgeEvent
  buf_timeout : Bytes → BridgeEvent
  molt_call : BridgeEvent
  unmolt_call : BridgeEvent

unfoldable pub bridge_step : BridgeEvent → Bridge → Bridge
unfolding handle_overlay_ipv6 on_path_notify register_claw_peer tun_read
bridge_step (overlay_packet from packet) b = handle_overlay_ipv6 from packet b
bridge_step (path_found key) b = on_path_notify key b
bridge_step (peer_registered key) b = register_claw_peer key b
bridge_step (tun_packet packet) b = tun_read packet b
bridge_step (key_timeout addr) b = record b { addr_to_key = delete addr b.addr_to_key }
bridge_step (buf_timeout addr) b = record b { addr_buf = delete addr b.addr_buf }
bridge_step molt_call b = record b { molted = true }
bridge_step unmolt_call b = record b { molted = false }

unfoldable pub bridge_run : List BridgeEvent → Bridge → Bridge
unfolding bridge_step
bridge_run [] b = b
bridge_run (e ∷ es) b = bridge_run es (bridge_step e b)
