-- ===== src/Overlay/Handshake/Peering.antt =====
-- What a handshake establishes.
use Prim.Native.Nat.{max}
use claw_net.Base.{
  ℕ, ◌≡◌, refl, arith, true, some, List, [], ◌∷◌, ◌++◌, length, leb, ltb, if◌then◌else◌,
  length-append, take_part, drop_part,
}
use claw_net.Overlay.Handshake.{
  done, fields, metadata, read_full, Crypto, IsCrypto, Conn, check_meta, read_payload_of,
  read_metadata, local_metadata, overlay_handshake,
}
use claw_net.Overlay.Handshake.Fields.{read_fields-fields, length-fields}

length-rest :
    (key sig : List ℕ) (prio : ℕ)
    → length key ≡ 32
    → length sig ≡ 64
    → length (fields key prio ++ sig) ≡ 117
length-rest key sig prio h k =
    rw (length-append (fields key prio) sig, length-fields key prio h) (omega arith)

metadata_is :
    (key sig : List ℕ) (prio : ℕ)
    → length key ≡ 32
    → length sig ≡ 64
    → metadata key prio sig ≡ 109 ∷ 101 ∷ 116 ∷ 97 ∷ 0 ∷ 117 ∷ (fields key prio ++ sig)
unfolding metadata
metadata_is key sig prio h k = rw (length-rest key sig prio h k) refl

read_full-done : (n : ℕ) (xs ys : List ℕ) → length xs ≡ n → read_full n (xs ++ ys) ≡ some (xs, ys)
unfolding read_full
read_full-done n xs ys h =
    let e : leb n (length (xs ++ ys)) ≡ true = rw (length-append xs ys) (ground arith) in
    rw (e, take_part n xs ys h, drop_part n xs ys h) refl

-- A connection without failures.
abbrev pub working : List ℕ → Conn
working bs = record { deadline_ok = true; write_ok = true; incoming = bs }

module _ {K : Type 0} (c : Crypto K) where
  check_meta-done :
      (priority prio : ℕ) (password key sig : List ℕ) (hash : List ℕ → List ℕ)
      → c.new512 password ≡ some hash
      → length key ≡ 32
      → c.verify key (hash key) sig ≡ true
      → check_meta c priority password sig (record { major = 0; minor = 5; key = key; prio = prio })
        ≡ done (key, (if ltb priority prio then prio else priority))
  unfolding check_meta
  check_meta-done priority prio password key sig hash e h v = rw (h, e, v) refl

  read_payload_of-done :
      (priority prio : ℕ) (password key sig : List ℕ) (hash : List ℕ → List ℕ)
      → c.new512 password ≡ some hash
      → length key ≡ 32
      → c.verify key (hash key) sig ≡ true
      → read_payload_of c priority password 117 (fields key prio ++ sig)
        ≡ done (key, (if ltb priority prio then prio else priority))
  unfolding read_payload_of
  read_payload_of-done priority prio password key sig hash e h v =
      rw
        (
          read_payload_of,
          read_fields-fields key sig prio h,
          drop_part 53 (fields key prio) sig (length-fields key prio h),
        )
        (check_meta-done priority prio password key sig hash e h v)

  -- What a peer of the same version encodes is decoded to its key, and the higher priority.
  pub read_metadata-metadata :
      (priority prio : ℕ) (password key sig extra : List ℕ) (hash : List ℕ → List ℕ)
      → c.new512 password ≡ some hash
      → length key ≡ 32
      → length sig ≡ 64
      → c.verify key (hash key) sig ≡ true
      → read_metadata c priority password (metadata key prio sig ++ extra)
        ≡ done (key, (if ltb priority prio then prio else priority))
  unfolding read_metadata
  read_metadata-metadata priority prio password key sig extra hash e h k v =
      rw
        (
          metadata_is key sig prio h k,
          read_metadata,
          read_full-done 6 (109 ∷ 101 ∷ 116 ∷ 97 ∷ 0 ∷ 117 ∷ []) ((fields key prio ++ sig) ++ extra)
              refl,
          read_full-done 117 (fields key prio ++ sig) extra (length-rest key sig prio h k),
        )
        (read_payload_of-done priority prio password key sig hash e h v)

  -- What `a` makes of the bytes that `b` sends.
  handshake_one :
      (d : IsCrypto c) (a b : K) (pa pb : ℕ) (password extra : List ℕ) (hash : List ℕ → List ℕ)
      → c.new512 password ≡ some hash
      → (overlay_handshake c (working (local_metadata c b pb hash ++ extra)) a pa password).1
        ≡ done (c.public b, max pa pb)
  unfolding overlay_handshake local_metadata
  handshake_one d a b pa pb password extra hash e =
      let m : (if ltb pa pb then pb else pa) ≡ max pa pb = ground arith in
      rw
        (
          overlay_handshake,
          e,
          read_metadata-metadata pa pb password (c.public b) (c.sign b (hash (c.public b))) extra
              hash e (d.public_size b) (d.sign_size b (hash (c.public b)))
              (d.verify_sign b (hash (c.public b))),
          m,
        )
        refl

  sends :
      (key : K) (prio : ℕ) (password bs : List ℕ) (hash : List ℕ → List ℕ)
      → c.new512 password ≡ some hash
      → (overlay_handshake c (working bs) key prio password).0 ≡ local_metadata c key prio hash
  unfolding overlay_handshake
  sends key prio password bs hash e = rw (overlay_handshake, e) refl

  -- Where the cryptography is as documented, the connections and the hash work and both have the same password, two
  -- peers that read what the other sends each get the other's public key, whatever follows the handshake in the
  -- stream, and agree on the higher of their priorities.
  pub handshake_agrees :
      (d : IsCrypto c) (a b : K) (pa pb : ℕ) (password extra_a extra_b bs cs : List ℕ)
      (hash : List ℕ → List ℕ)
      → c.new512 password ≡ some hash
      → let to_a = (overlay_handshake c (working bs) b pb password).0 in
        let to_b = (overlay_handshake c (working cs) a pa password).0 in
        ((overlay_handshake c (working (to_a ++ extra_a)) a pa password).1
          ≡ done (c.public b, max pa pb))
        × ((overlay_handshake c (working (to_b ++ extra_b)) b pb password).1
            ≡ done (c.public a, max pa pb))
  handshake_agrees d a b pa pb password extra_a extra_b bs cs hash e =
      let swap : max pb pa ≡ max pa pb = omega arith in
      rw (sends b pb password bs hash e, sends a pa password cs hash e, ← swap)
        (
          rw swap (handshake_one d a b pa pb password extra_a hash e),
          handshake_one d b a pb pa password extra_b hash e,
        )
