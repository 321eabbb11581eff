-- ===== src/Overlay/Bridge/Buffered.antt =====
-- What becomes of a packet that waits for a key.
use claw_net.Base.{
  ◌≡◌, ◌∙◌, refl, ap, true, none, some, ◌∷◌, Bytes, Bool-cases, inl, inr, same_bytes_refl,
}
use claw_net.Overlay.Address.{overlay_address}
use claw_net.Overlay.Bridge.{
  Bridge, update_key, flush, handle_overlay_ipv6, on_path_notify, tun_read, destination, is_ipv6,
  in_overlay, may_talk, buffer_packet,
}

flushed :
    (packet key : Bytes) (c : Bridge)
    → c.addr_buf (overlay_address key) ≡ some packet
    → (on_path_notify key c).sent ≡ (packet, key) ∷ c.sent
unfolding on_path_notify update_key
flushed packet key c e = rw (e, flush) refl

dropped :
    (key data_in : Bytes) (c : Bridge)
    → is_ipv6 data_in ≡ true
    → ((handle_overlay_ipv6 key data_in c).sent ≡ c.sent)
      × ((handle_overlay_ipv6 key data_in c).addr_buf (overlay_address key) ≡ none)
unfolding handle_overlay_ipv6 update_key
dropped key data_in c ip = elim (Bool-cases (may_talk key (update_key key c).0)) [
  | inl m ↦ rw (ip, m, same_bytes_refl (overlay_address key)) (refl, refl)
  | inr m ↦ rw (ip, m, same_bytes_refl (overlay_address key)) (refl, refl)
]

module _ (packet key : Bytes) (b : Bridge) (ip : is_ipv6 packet ≡ true)
    (to : destination packet ≡ overlay_address key) (range : in_overlay (destination packet) ≡ true)
    (unknown : b.addr_to_key (destination packet) ≡ none) where
  waits : tun_read packet b ≡ buffer_packet (destination packet) packet b
  unfolding tun_read
  waits = rw (ip, range, unknown) refl

  found : (buffer_packet (destination packet) packet b).addr_buf (overlay_address key) ≡ some packet
  found = rw (to, same_bytes_refl (overlay_address key)) refl

  -- A packet for the address of a key that is not known yet waits. When a path to the key is found, it is sent to the
  -- key, whether or not the node may talk to it. When a packet from the key arrives first, the packet that
  -- waits is gone and nothing is sent.
  pub buffered_packet_leaves :
      (data_in : Bytes)
      → is_ipv6 data_in ≡ true
      → ((on_path_notify key (tun_read packet b)).sent ≡ (packet, key) ∷ b.sent)
        × ((handle_overlay_ipv6 key data_in (tun_read packet b)).sent ≡ b.sent)
        × ((handle_overlay_ipv6 key data_in (tun_read packet b)).addr_buf (overlay_address key)
            ≡ none)
  buffered_packet_leaves data_in ip' =
      let c : Bridge = buffer_packet (destination packet) packet b in
      let (none_sent, none_waits) = dropped key data_in c ip' in
      (
        ap (λ x. (on_path_notify key x).sent) waits ∙ flushed packet key c found,
        ap (λ x. (handle_overlay_ipv6 key data_in x).sent) waits ∙ none_sent,
        ap (λ x. (handle_overlay_ipv6 key data_in x).addr_buf (overlay_address key)) waits
            ∙ none_waits,
      )
