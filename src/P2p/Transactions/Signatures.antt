-- ===== src/P2p/Transactions/Signatures.antt =====
-- What a verified transaction proves, and that one that both peers signed is verified.
use claw_net.Base.{
  ◌≡◌, ◌∙◌, refl, sym, ap, arith, String, Bool, true, false, some, [], Bytes, ◌==◌, Bool-cases,
  Option-cases, inl, inr, text_same, subst,
}
use claw_net.Base.Int.{ℤ}
use claw_net.P2p.Records.{PeerKeys, signed_by}
use claw_net.P2p.Records.Signatures.{>>=-eq-some, Signed, signed_by-Signed, Signed-signed_by}
use claw_net.P2p.Transactions.{
  TxnRecord, SignedTxn, TxnJson, stamp_txn, sign_txn, counter_sign_txn, counter_signed, verify_txn,
  validate_txn, txn_key, is_empty,
}

-- What the flag of a verified transaction says of the receiver.
abbrev pub SignedIf : Bool → PeerKeys → String → Bytes → Bytes → Type 0
SignedIf true keys peer payload signature = Signed keys peer payload signature
SignedIf false keys peer payload signature = Unit

stamped_peers :
    (now : ℤ) (r : TxnRecord) → ((stamp_txn now r).from ≡ r.from) × ((stamp_txn now r).to ≡ r.to)
stamped_peers now r = ground arith

module _ (json : TxnJson) (keys : PeerKeys) where
  counter_signed-SignedIf :
      (r : TxnRecord) (wire : SignedTxn)
      → SignedIf (counter_signed json keys r wire) keys r.to wire.payload wire.receiver_sig
  counter_signed-SignedIf r wire = elim (Bool-cases (is_empty wire.receiver_sig)) [
    | inl e ↦ rw e tt
    | inr e ↦ elim (Option-cases (signed_by keys r.to wire.payload wire.receiver_sig)) [
      | inl n ↦ rw (e, n) tt
      | inr (u, s) ↦ rw (e, s) (signed_by-Signed keys r.to wire.payload wire.receiver_sig s)
    ]
  ]

  abbrev pub Vouched : Bytes → TxnRecord → Bool → Type 0
  Vouched value r full =
      (wire : SignedTxn) × (json.unmarshal_signed value ≡ some wire)
      × (json.unmarshal_txn wire.payload ≡ some r)
      × Signed keys r.from wire.payload wire.sender_sig
      × SignedIf full keys r.to wire.payload wire.receiver_sig

  verify_txn-Vouched :
      (value : Bytes) (r : TxnRecord) (full : Bool)
      → verify_txn json keys value ≡ some (r, full)
      → Vouched value r full
  unfolding verify_txn
  verify_txn-Vouched value r full h =
      let (wire, w, h1) = >>=-eq-some (json.unmarshal_signed value) _ h in
      let (r', q, h2) = >>=-eq-some (json.unmarshal_txn wire.payload) _ h1 in
      let (u, s, h3) = >>=-eq-some (signed_by keys r'.from wire.payload wire.sender_sig) _ h2 in
      let r'-is : r' ≡ r = cc h3 in
      let full-is : counter_signed json keys r' wire ≡ full = cc h3 in
      subst (λ x. Vouched value x full) r'-is
        (subst (Vouched value r') full-is (
          wire,
          w,
          q,
          signed_by-Signed keys r'.from wire.payload wire.sender_sig s,
          counter_signed-SignedIf r' wire,
        ))

  -- A value that is accepted for a key encodes a transaction that its sender has signed, and the key is that of the
  -- transaction's id; where the value counts as fully signed, the receiver has signed the same bytes too.
  pub validate_txn_sound :
      (key : String) (value : Bytes)
      → validate_txn json keys key value ≡ true
      → (r : TxnRecord) × (full : Bool) × (verify_txn json keys value ≡ some (r, full))
        × (key ≡ txn_key r.txn_id)
        × Vouched value r full
  unfolding validate_txn
  validate_txn_sound key value h = elim (Option-cases (verify_txn json keys value)) [
    | inl e ↦ let q : false ≡ true = rw (e, validate_txn) at h in absurd (cc q)
    | inr ((r, full), e) ↦
        let q : (key == txn_key r.txn_id) ≡ true = rw (e, validate_txn) at h in
        (r, full, e, text_same key (txn_key r.txn_id) q, verify_txn-Vouched value r full e)
  ]

  full_verify :
      (x : TxnRecord) (wire : SignedTxn) (value : Bytes)
      → json.unmarshal_signed value ≡ some wire
      → json.unmarshal_txn wire.payload ≡ some x
      → Signed keys x.from wire.payload wire.sender_sig
      → is_empty wire.receiver_sig ≡ false
      → Signed keys x.to wire.payload wire.receiver_sig
      → verify_txn json keys value ≡ some (x, true)
  unfolding verify_txn
  full_verify x wire value w q s e t =
      rw
        (
          w,
          q,
          Signed-signed_by keys x.from wire.payload wire.sender_sig s,
          e,
          Signed-signed_by keys x.to wire.payload wire.receiver_sig t,
        )
        refl

  -- A transaction that its sender signs and its receiver counter-signs is verified as fully signed, where decoding
  -- undoes encoding, signatures are not empty and each peer's public key accepts what its private key signs.
  pub verify_txn-counter_sign_txn :
      (now : ℤ) (from_secret to_secret : Bytes) (r : TxnRecord) (value counter_value : Bytes)
      → ((b : Bytes)
          → json.marshal_txn (stamp_txn now r) ≡ some b
          → json.unmarshal_txn b ≡ some (stamp_txn now r))
      → ((x : SignedTxn) (b : Bytes)
          → json.marshal_signed x ≡ some b
          → json.unmarshal_signed b ≡ some x)
      → ((m s : Bytes) → keys.sign to_secret m ≡ some s → is_empty s ≡ false)
      → ((m s : Bytes) → keys.sign from_secret m ≡ some s → Signed keys r.from m s)
      → ((m s : Bytes) → keys.sign to_secret m ≡ some s → Signed keys r.to m s)
      → sign_txn json keys now from_secret r ≡ some value
      → counter_sign_txn json keys to_secret value ≡ some counter_value
      → verify_txn json keys counter_value ≡ some (stamp_txn now r, true)
  unfolding sign_txn counter_sign_txn
  verify_txn-counter_sign_txn now from_secret to_secret r value counter_value undo undo_signed
        some_bytes by_from by_to h k =
      let (payload, m, h1) = >>=-eq-some (json.marshal_txn (stamp_txn now r)) _ h in
      let (s1, g1, h2) = >>=-eq-some (keys.sign from_secret payload) _ h1 in
      let first : SignedTxn = record { payload = payload; sender_sig = s1; receiver_sig = [] } in
      let (wire, w, k1) = >>=-eq-some (json.unmarshal_signed value) _ k in
      let (s2, g2, k2) = >>=-eq-some (keys.sign to_secret wire.payload) _ k1 in
      let opened : some wire ≡ some first = sym w ∙ undo_signed first value h2 in
      let wire-is : wire ≡ first = cc opened in
      let second : SignedTxn = record wire { receiver_sig = s2 } in
      let same_payload : wire.payload ≡ payload = ap (λ x. x.payload) wire-is in
      let same_sig : wire.sender_sig ≡ s1 = ap (λ x. x.sender_sig) wire-is in
      let (from_is, to_is) = stamped_peers now r in
      full_verify (stamp_txn now r) second counter_value (undo_signed second counter_value k2)
        (ap json.unmarshal_txn same_payload ∙ undo payload m)
        (rw (from_is, same_payload, same_sig) (by_from payload s1 g1))
        (some_bytes wire.payload s2 g2) (rw to_is (by_to wire.payload s2 g2))
