-- ===== src/Overlay/Handshake/Soundness.antt =====
-- What a handshake that succeeds has checked.
use claw_net.Base.{
  ℕ, ◌-◌, ◌≡◌, ◌≤◌, refl, arith, true, some, List, length, take, drop, Option-cases, inl, inr, ◌⊎◌,
}
use claw_net.Overlay.Handshake.{
  Meta, no_meta, Outcome, done, failed, panicked, uint16, read_fields, read_full, Crypto, Conn,
  HandshakeError, check_meta, read_payload_of, read_metadata, overlay_handshake,
}

pub outcome_cases :
    {A : Type 0} (o : Outcome A)
    → ((a : A) × (o ≡ done a)) ⊎ (((e : HandshakeError) × (o ≡ failed e)) ⊎ (o ≡ panicked))
outcome_cases (done a) = inl (a, refl)
outcome_cases (failed e) = inr (inl (e, refl))
outcome_cases panicked = inr (inr refl)

module _ {K : Type 0} (c : Crypto K) where
  check_meta_sound :
      (priority prio : ℕ) (password key sig : List ℕ) (m : Meta)
      → check_meta c priority password sig m ≡ done (key, prio)
      → (m.major ≡ 0)
        × (m.minor ≡ 5)
        × (length key ≡ 32)
        × (priority ≤ prio)
        × ((hash : List ℕ → List ℕ) × (c.new512 password ≡ some hash)
            × (c.verify key (hash key) sig ≡ true))
  unfolding check_meta
  check_meta_sound priority prio password key sig m e = elim (Option-cases (c.new512 password)) [
    | inl n ↦ absurd (ground (arith, n))
    | inr (hash, q) ↦ (
      ground (arith, q),
      ground (arith, q),
      ground (arith, q),
      ground (arith, q),
      (hash, q, ground (arith, q)),
    )
  ]

  -- The signature of a handshake: the last 64 bytes of the payload, whose length the header holds.
  abbrev pub received_signature : List ℕ → List ℕ
  received_signature bs =
      let rem = uint16 (drop 4 (take 6 bs)) in drop (rem - 64) (take rem (drop 6 bs))

  abbrev pub Verified : ℕ → List ℕ → List ℕ → List ℕ → ℕ → Type 0
  Verified priority password bs key prio =
      (length key ≡ 32)
      × (priority ≤ prio)
      × ((hash : List ℕ → List ℕ) × (c.new512 password ≡ some hash)
          × (c.verify key (hash key) (received_signature bs) ≡ true))

  read_payload_of_sound :
      (priority prio rem : ℕ) (password key payload : List ℕ)
      → read_payload_of c priority password rem payload ≡ done (key, prio)
      → (length key ≡ 32)
        × (priority ≤ prio)
        × ((hash : List ℕ → List ℕ) × (c.new512 password ≡ some hash)
            × (c.verify key (hash key) (drop (rem - 64) payload) ≡ true))
  unfolding read_payload_of
  read_payload_of_sound priority prio rem password key payload e =
      elim (outcome_cases (read_fields (rem - 64) (rem - 64) payload no_meta)) [
        | inl (m, q) ↦
            let s =
              check_meta_sound priority prio password key (drop (rem - 64) payload) m
                (ground (arith, q)) in
            (s.2, s.3, s.4)
        | inr (inl (x, q)) ↦ absurd (ground (arith, q))
        | inr (inr q) ↦ absurd (ground (arith, q))
      ]

  read_metadata_sound :
      (priority prio : ℕ) (password bs key : List ℕ)
      → read_metadata c priority password bs ≡ done (key, prio)
      → Verified priority password bs key prio
  unfolding read_metadata read_full
  read_metadata_sound priority prio password bs key e =
      read_payload_of_sound priority prio (uint16 (drop 4 (take 6 bs))) password key
        (take (uint16 (drop 4 (take 6 bs))) (drop 6 bs)) (ground arith)

  -- Where a handshake returns a key and a priority, the key has 32 bytes, the priority is at least ours,
  -- and the signature at the end of what was read verifies, under that key, the hash of that key with our password.
  pub handshake_sound :
      (conn : Conn) (a : K) (priority prio : ℕ) (password key : List ℕ)
      → (overlay_handshake c conn a priority password).1 ≡ done (key, prio)
      → Verified priority password conn.incoming key prio
  unfolding overlay_handshake
  handshake_sound conn a priority prio password key e = elim (Option-cases (c.new512 password)) [
    | inl n ↦ absurd (ground (arith, n))
    | inr (hash, q) ↦
        read_metadata_sound priority prio password conn.incoming key (ground (arith, q))
  ]
