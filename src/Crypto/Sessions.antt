-- ===== src/Crypto/Sessions.antt =====
-- Which key a message is encrypted for, and that its receiver can read it.
use claw_net.Base.{
  ℕ, ◌≡◌, ◌∙◌, refl, sym, ap, arith, String, true, some, [], ◌∷◌, Bytes, All, length, ◌==ℕ◌,
  Option-cases, inl, inr,
}
use claw_net.Base.Int.{pos}
use claw_net.Base.Table.{find, find-insert_self}
use claw_net.Crypto.{
  EncryptedEnvelope, Primitives, Engine, decode_exactly, load_peer_key, store_peer_key,
  cache_peer_key, get_peer_key, sealed, encrypt, encrypt_for, decrypt, open_envelope,
}

module _ (p : Primitives) where
  decode_exactly_lem :
      (n : ℕ) (text : String) (b : Bytes)
      → p.decode_base64 text ≡ some b
      → length b ≡ n
      → decode_exactly p n text ≡ some b
  decode_exactly_lem n text b d l =
      let e : (length b ==ℕ n) ≡ true = ground arith in rw (d, decode_exactly, e) refl

  get_peer_key_cached :
      (pid : String) (key : Bytes) (e : Engine)
      → find pid e.peer_keys ≡ some key
      → get_peer_key p pid e ≡ (e, some key)
  unfolding get_peer_key
  get_peer_key_cached pid key e h = rw (h, get_peer_key) refl

  decrypted :
      (pid : String) (envelope sender : Bytes) (env : EncryptedEnvelope) (e : Engine)
      → p.unmarshal_envelope envelope ≡ some env
      → env.encrypted ≡ true
      → env.version ≡ pos 1
      → decode_exactly p 32 env.pub_key ≡ some sender
      → let e' = store_peer_key p pid sender (cache_peer_key p pid sender e) in
        decrypt p pid envelope e ≡ (e', open_envelope p env sender e')
  unfolding decrypt
  decrypted pid envelope sender env e u enc v d = rw (u, decrypt, enc, v, d) refl

  encrypted_for :
      (pid : String) (plaintext nonce key : Bytes) (e e' : Engine)
      → get_peer_key p pid e ≡ (e', some key)
      → encrypt p pid plaintext (some nonce) e
        ≡ (e', p.marshal_envelope (sealed p e' key plaintext nonce))
  unfolding encrypt
  encrypted_for pid plaintext nonce key e e' g = ap (encrypt_for p plaintext (some nonce)) g

  get_peer_key_keeps :
      (pid : String) (e : Engine)
      → ((get_peer_key p pid e).0.pub_key ≡ e.pub_key)
        × ((get_peer_key p pid e).0.priv_scalar ≡ e.priv_scalar)
  unfolding get_peer_key
  get_peer_key_keeps pid e = elim (Option-cases (find pid e.peer_keys)) [
    | inr (k, f) ↦ rw (f, get_peer_key) (refl, refl)
    | inl f ↦ elim (Option-cases (load_peer_key p pid e)) [
      | inr (k, g) ↦ rw (f, get_peer_key, g) (refl, refl)
      | inl g ↦ elim (Option-cases (p.peer_id_to_curve25519 pid)) [
        | inr (k, c) ↦ rw (f, get_peer_key, g, c) (refl, refl)
        | inl c ↦ rw (f, get_peer_key, g, c) (refl, refl)
      ]
    ]
  ]

  -- An envelope of the right form that names a key of 32 bytes makes this key the one for which all that is sent to the peer
  -- afterwards is encrypted, whatever key it had, and whether or not the envelope could be opened.
  pub decrypt_takes_key :
      (pid : String) (envelope sender plaintext nonce : Bytes) (env : EncryptedEnvelope)
      (e : Engine)
      → p.unmarshal_envelope envelope ≡ some env
      → env.encrypted ≡ true
      → env.version ≡ pos 1
      → p.decode_base64 env.pub_key ≡ some sender
      → length sender ≡ 32
      → let e' = (decrypt p pid envelope e).0 in
        (encrypt p pid plaintext (some nonce) e').1
        ≡ p.marshal_envelope (sealed p e sender plaintext nonce)
  decrypt_takes_key pid envelope sender plaintext nonce env e u enc v d l =
      let e' : Engine = store_peer_key p pid sender (cache_peer_key p pid sender e) in
      let after : (decrypt p pid envelope e).0 ≡ e' =
        ap (λ x. x.0)
          (decrypted pid envelope sender env e u enc v
            (decode_exactly_lem 32 env.pub_key sender d l)) in
      ap (λ x. (encrypt p pid plaintext (some nonce) x).1) after
      ∙ ap (λ x. x.1)
          (encrypted_for pid plaintext nonce sender e' e'
            (get_peer_key_cached pid sender e' (find-insert_self pid sender e.peer_keys)))

  opened :
      (plaintext nonce key : Bytes) (a b : Engine)
      → All
          (λ x. p.decode_base64 (p.encode_base64 x) ≡ some x)
          (a.pub_key ∷ nonce ∷ p.seal plaintext nonce key a.priv_scalar ∷ [])
      → ((m n : Bytes)
          → p.open_box (p.seal m n key a.priv_scalar) n a.pub_key b.priv_scalar ≡ some m)
      → length nonce ≡ 24
      → open_envelope p (sealed p a key plaintext nonce) a.pub_key b ≡ some plaintext
  opened plaintext nonce key a b undo opens l =
      let n : decode_exactly p 24 (p.encode_base64 nonce) ≡ some nonce =
        decode_exactly_lem 24 (p.encode_base64 nonce) nonce undo.1.0 l in
      rw (n, open_envelope, undo.1.1.0) (opens plaintext nonce)

  -- What one peer encrypts for the key of the other, the other decrypts to the same message, where both libraries undo
  -- what they encode, boxes open with the keys that belong together, and keys and nonces have their lengths.
  pub decrypt-encrypt :
      (alice bob : String) (plaintext nonce key envelope : Bytes) (a b : Engine)
      → All
          (λ x. p.decode_base64 (p.encode_base64 x) ≡ some x)
          (a.pub_key ∷ nonce ∷ p.seal plaintext nonce key a.priv_scalar ∷ [])
      → (let env = sealed p a key plaintext nonce in
          (y : Bytes) → p.marshal_envelope env ≡ some y → p.unmarshal_envelope y ≡ some env)
      → ((m n : Bytes)
          → p.open_box (p.seal m n key a.priv_scalar) n a.pub_key b.priv_scalar ≡ some m)
      → length a.pub_key ≡ 32
      → length nonce ≡ 24
      → (get_peer_key p bob a).1 ≡ some key
      → (encrypt p bob plaintext (some nonce) a).1 ≡ some envelope
      → (decrypt p alice envelope b).1 ≡ some plaintext
  decrypt-encrypt alice bob plaintext nonce key envelope a b undo undo_json opens l n k h =
      let a' : Engine = (get_peer_key p bob a).0 in
      let (same_pub, same_priv) = get_peer_key_keeps bob a in
      let got : get_peer_key p bob a ≡ (a', some key) = ap (λ o. ((get_peer_key p bob a).0, o)) k in
      let env : EncryptedEnvelope = sealed p a key plaintext nonce in
      let same_env : sealed p a' key plaintext nonce ≡ env = rw (same_pub, same_priv) refl in
      let made : p.marshal_envelope env ≡ some envelope =
        ap p.marshal_envelope (sym same_env)
        ∙ sym (ap (λ x. x.1) (encrypted_for bob plaintext nonce key a a' got))
        ∙ h in
      let sender_is : decode_exactly p 32 env.pub_key ≡ some a.pub_key =
        decode_exactly_lem 32 env.pub_key a.pub_key undo.0 l in
      ap (λ x. x.1)
        (decrypted alice envelope a.pub_key env b (undo_json envelope made) refl refl sender_is)
      ∙ opened plaintext nonce key a b undo opens n
