-- ===== src/P2p/Records/Signatures.antt =====
-- What an accepted record proves, and that a signed record is accepted.
use Prim.Native.String.{◌++◌ as join}
use claw_net.Base.{
  ◌≡◌, ◌∙◌, refl, ap, String, Bool, true, false, Option, none, some, Bytes, ◌==◌, Bool-cases, inl,
  inr, text_same, text_refl, subst,
}
use claw_net.Base.Int.{ℤ}
use claw_net.P2p.Records.{
  PeerKeys, Wire, Json, ◌>>=◌, signed_by, granted, verify_record, sign_record,
}

-- Inversion of a successful chain.
pub >>=-eq-some {ℓ κ} :
    {A : Type ℓ} {B : Type κ} (m : Option A) (f : A → Option B) {b : B}
    → (m >>= f) ≡ some b
    → (a : A) × (m ≡ some a) × (f a ≡ some b)
>>=-eq-some none f h = cc
>>=-eq-some (some a) f h = (a, refl, h)

-- The payload is signed with the private key of the peer.
abbrev pub Signed : PeerKeys → String → Bytes → Bytes → Type 0
Signed keys peer payload signature =
    (pid key : Bytes) × (keys.decode peer ≡ some pid)
    × (keys.extract_public_key pid ≡ some key)
    × (keys.verify key payload signature ≡ some true)

only_granted : (ok : Bool) {u : Unit {0}} → granted ok ≡ some u → ok ≡ true
only_granted true h = refl
only_granted false h = cc

pub signed_by-Signed :
    (keys : PeerKeys) (peer : String) (payload signature : Bytes)
    → signed_by keys peer payload signature ≡ some tt
    → Signed keys peer payload signature
signed_by-Signed keys peer payload signature h =
    let (pid, p, h1) = >>=-eq-some (keys.decode peer) _ h in
    let (key, k, h2) = >>=-eq-some (keys.extract_public_key pid) _ h1 in
    let (ok, o, h3) = >>=-eq-some (keys.verify key payload signature) _ h2 in
    (pid, key, p, k, o ∙ ap some (only_granted ok h3))

pub Signed-signed_by :
    (keys : PeerKeys) (peer : String) (payload signature : Bytes)
    → Signed keys peer payload signature
    → signed_by keys peer payload signature ≡ some tt
Signed-signed_by keys peer payload signature (pid, key, p, k, v) = rw (p, k, v) refl

module _ {R : Type 0} (json : Json R) (keys : PeerKeys) (prefix : String) (peer_of : R → String)
    (time_of : R → ℤ) where
  abbrev pub Accepted : String → Bytes → R → Type 0
  Accepted key value r =
      (wire : Wire) × (json.unmarshal_wire value ≡ some wire)
      × (json.unmarshal_record wire.payload ≡ some r)
      × (key ≡ join prefix (peer_of r))
      × Signed keys (peer_of r) wire.payload wire.signature

  -- A value that is accepted for a key encodes the record that is returned; the key is that of the peer that the record
  -- names, and the record is signed by that peer.
  pub verify_record_sound :
      (key : String) (value : Bytes) (r : R)
      → verify_record json keys prefix peer_of time_of key value ≡ some r
      → Accepted key value r
  unfolding verify_record
  verify_record_sound key value r h =
      let (wire, w, h1) = >>=-eq-some (json.unmarshal_wire value) _ h in
      let (r', q, h2) = >>=-eq-some (json.unmarshal_record wire.payload) _ h1 in
      elim (Bool-cases (key == join prefix (peer_of r'))) [
        | inl e ↦
            let signed = signed_by keys (peer_of r') wire.payload wire.signature in
            let h3 : (signed >>= λ _. some r') ≡ some r = rw e at h2 in
            let (u, s, same) = >>=-eq-some signed _ h3 in
            let r'-is : r' ≡ r = cc same in
            subst (Accepted key value) r'-is (
              wire,
              w,
              q,
              text_same key (join prefix (peer_of r')) e,
              signed_by-Signed keys (peer_of r') wire.payload wire.signature s,
            )
        | inr e ↦ let h3 : none ≡ some r = rw e at h2 in absurd (cc h3)
      ]

  -- A value that `sign_record` makes is accepted under the key of the peer that the record names, and gives the record
  -- back, where decoding undoes encoding, and the peer's public key accepts what its private key signs.
  pub verify_record-sign_record :
      (secret : Bytes) (r : R) (value pid key : Bytes)
      → ((x : R) (b : Bytes) → json.marshal_record x ≡ some b → json.unmarshal_record b ≡ some x)
      → ((w : Wire) (b : Bytes) → json.marshal_wire w ≡ some b → json.unmarshal_wire b ≡ some w)
      → keys.decode (peer_of r) ≡ some pid
      → keys.extract_public_key pid ≡ some key
      → ((m s : Bytes) → keys.sign secret m ≡ some s → keys.verify key m s ≡ some true)
      → sign_record json keys secret r ≡ some value
      → verify_record json keys prefix peer_of time_of (join prefix (peer_of r)) value ≡ some r
  unfolding verify_record sign_record
  verify_record-sign_record secret r value pid key undo undo_wire p k accepts h =
      let (payload, m, h1) = >>=-eq-some (json.marshal_record r) _ h in
      let (signature, g, h2) = >>=-eq-some (keys.sign secret payload) _ h1 in
      let wire : Wire = record { payload = payload; signature = signature } in
      rw
        (
          undo_wire wire value h2,
          undo r payload m,
          text_refl (join prefix (peer_of r)),
          Signed-signed_by keys (peer_of r) payload signature
              (pid, key, p, k, accepts payload signature g),
        )
        refl
