-- ===== src/Overlay/Bridge/Examples.antt =====
-- A packet to a key that is no known peer.
use claw_net.Base.{◌≡◌, refl, sym, false, none, some, List, [], ◌∷◌, Bytes, ◌++◌, All, same_bytes}
use claw_net.Overlay.Address.{overlay_address, copies}
use claw_net.Overlay.Bridge.{
  BridgeEvent, overlay_packet, path_found, peer_registered, tun_packet, key_timeout, bridge_run,
  bridge_step, new_bridge, on_path_notify, handle_overlay_ipv6, tun_read, update_key, destination,
}
use claw_net.Overlay.Bridge.Destinations.{bridge_run_routes, SentFits}
use claw_net.Overlay.Bridge.Buffered.{buffered_packet_leaves}

abbrev own_key : Bytes
own_key = copies 32 255

abbrev stranger : Bytes
stranger = 254 ∷ copies 31 0

-- The address of the stranger.
abbrev stranger_address : Bytes
stranger_address = 2 ∷ 0 ∷ 3 ∷ copies 13 255

stranger_address_is : overlay_address stranger ≡ stranger_address
unfolding overlay_address
stranger_address_is = refl

abbrev packet : Bytes
packet = (96 ∷ copies 23 0) ++ stranger_address

abbrev reply : Bytes
reply = 96 ∷ copies 39 0

unknown : (new_bridge own_key).addr_to_key (destination packet) ≡ none
unfolding new_bridge update_key same_bytes overlay_address
unknown = refl

buffered_packet_leaves_example :
    let b = new_bridge own_key in
    ((on_path_notify stranger (tun_read packet b)).sent ≡ (packet, stranger) ∷ b.sent)
    × ((handle_overlay_ipv6 stranger reply (tun_read packet b)).sent ≡ b.sent)
    × ((handle_overlay_ipv6 stranger reply (tun_read packet b)).addr_buf (overlay_address stranger)
        ≡ none)
buffered_packet_leaves_example =
    buffered_packet_leaves packet stranger (new_bridge own_key) refl (sym stranger_address_is) refl
      unknown reply refl

-- The node is not molted and the stranger is no known peer, and still the packet leaves.
packet_leaves :
    let b = bridge_run (tun_packet packet ∷ path_found stranger ∷ []) (new_bridge own_key) in
    (b.sent ≡ (packet, stranger) ∷ []) × (b.molted ≡ false) × (b.claw_peers stranger ≡ false)
unfolding bridge_run bridge_step on_path_notify tun_read update_key same_bytes new_bridge
    overlay_address
packet_leaves = (refl, refl, refl)

abbrev events : List BridgeEvent
events =
    tun_packet packet
    ∷ peer_registered stranger
    ∷ tun_packet packet
    ∷ overlay_packet stranger reply
    ∷ key_timeout stranger_address
    ∷ []

bridge_run_routes_example :
    let b = bridge_run events (new_bridge own_key) in
    All SentFits b.sent
    × ((addr key : Bytes) → b.addr_to_key addr ≡ some key → overlay_address key ≡ addr)
    × ((addr packet : Bytes) → b.addr_buf addr ≡ some packet → destination packet ≡ addr)
bridge_run_routes_example = bridge_run_routes own_key events
