-- ===== src/Crypto.antt =====
-- The keys with which direct messages are encrypted: clawnet-cli/internal/crypto/engine.go. Keys and messages are
-- lists of bytes, a peer is its id's text. Texts of errors are left out: `none` is an error.
use claw_net.Base.{
  ℕ, String, Bool, true, false, not, ◌&&◌, ◌||◌, Option, none, some, List, [], ◌∷◌, Bytes, length,
  ◌==ℕ◌, if◌then◌else◌,
}
use claw_net.Base.Int.{ℤ, pos, eqb_ℤ}
use claw_net.Base.Table.{Table, find, insert}
pub mod Sessions
mod Examples

pub record EncryptedEnvelope : Type 0 where
  pub version : ℤ
  pub encrypted : Bool
  pub pub_key : String
  pub nonce : String
  pub cipher : String

-- The libraries: the box of NaCl, with its key, nonce and secret key, base64, encoding/json on envelopes, and the Curve25519
-- key of a peer id (`PeerIDToCurve25519` of clawnet-cli/internal/crypto/keys.go, which calls a library of
-- curves).
pub record Primitives : Type 0 where
  pub seal : Bytes → Bytes → Bytes → Bytes → Bytes
  pub open_box : Bytes → Bytes → Bytes → Bytes → Option Bytes
  pub encode_base64 : Bytes → String
  pub decode_base64 : String → Option Bytes
  pub marshal_envelope : EncryptedEnvelope → Option Bytes
  pub unmarshal_envelope : Bytes → Option EncryptedEnvelope
  pub peer_id_to_curve25519 : String → Option Bytes

-- `Engine`; `sessions` is the table crypto_sessions, with the keys in base64.
pub record Engine : Type 0 where
  pub priv_scalar : Bytes
  pub pub_key : Bytes
  pub sessions : Table String
  pub peer_keys : Table Bytes

module _ (p : Primitives) where
  -- A text that decodes to a number of bytes.
  abbrev pub decode_exactly : ℕ → String → Option Bytes
  decode_exactly n text = elim (p.decode_base64 text) [
    | none ↦ none
    | some b ↦ if length b ==ℕ n then some b else none
  ]

  abbrev pub load_peer_key : String → Engine → Option Bytes
  load_peer_key pid e = elim (find pid e.sessions) [
    | none ↦ none
    | some text ↦ decode_exactly 32 text
  ]

  abbrev pub store_peer_key : String → Bytes → Engine → Engine
  store_peer_key pid key e = record e { sessions = insert pid (p.encode_base64 key) e.sessions }

  abbrev pub cache_peer_key : String → Bytes → Engine → Engine
  cache_peer_key pid key e = record e { peer_keys = insert pid key e.peer_keys }

  unfoldable pub get_peer_key : String → Engine → Engine × Option Bytes
  get_peer_key pid e = elim (find pid e.peer_keys) [
    | some key ↦ (e, some key)
    | none ↦ elim (load_peer_key pid e) [
      | some key ↦ (cache_peer_key pid key e, some key)
      | none ↦ elim (p.peer_id_to_curve25519 pid) [
        | none ↦ (e, none)
        | some key ↦ (store_peer_key pid key (cache_peer_key pid key e), some key)
      ]
    ]
  ]

  -- The envelope that is made for a key.
  abbrev pub sealed : Engine → Bytes → Bytes → Bytes → EncryptedEnvelope
  sealed e key plaintext nonce = record {
    version = pos 1;
    encrypted = true;
    pub_key = p.encode_base64 e.pub_key;
    nonce = p.encode_base64 nonce;
    cipher = p.encode_base64 (p.seal plaintext nonce key e.priv_scalar);
  }

  -- The nonce is what rand.Read gives, if it does.
  abbrev pub encrypt_for : Bytes → Option Bytes → Engine × Option Bytes → Engine × Option Bytes
  encrypt_for _ _ (e, none) = (e, none)
  encrypt_for _ none (e, some key) = (e, none)
  encrypt_for plaintext (some n) (e, some key) = (e, p.marshal_envelope (sealed e key plaintext n))

  unfoldable pub encrypt : String → Bytes → Option Bytes → Engine → Engine × Option Bytes
  unfolding get_peer_key
  encrypt pid plaintext nonce e = encrypt_for plaintext nonce (get_peer_key pid e)

  -- The rest of `Decrypt`, once the sender's key is stored.
  abbrev pub open_envelope : EncryptedEnvelope → Bytes → Engine → Option Bytes
  open_envelope env sender e = elim (decode_exactly 24 env.nonce) [
    | none ↦ none
    | some n ↦ elim (p.decode_base64 env.cipher) [
      | none ↦ none
      | some c ↦ p.open_box c n sender e.priv_scalar
    ]
  ]

  unfoldable pub decrypt : String → Bytes → Engine → Engine × Option Bytes
  decrypt pid envelope e = elim (p.unmarshal_envelope envelope) [
    | none ↦ (e, none)
    | some env ↦
        if not env.encrypted || not (eqb_ℤ env.version (pos 1))
        then (e, none)
        else (elim (decode_exactly 32 env.pub_key) [
          | none ↦ (e, none)
          | some sender ↦
              let e' = store_peer_key pid sender (cache_peer_key pid sender e) in
              (e', open_envelope env sender e')
        ])
  ]
