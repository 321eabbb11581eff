-- ===== src/P2p/Records.antt =====
-- Records that are signed by the peer that they are about: clawnet-cli/internal/p2p/dht_reputation.go and
-- clawnet-cli/internal/p2p/dht_profile.go. Both files verify and choose values in the same way, so this is
-- done once, for a type of records. Texts of errors are left out: `none` is an error.
use Prim.Native.String.{◌++◌ as join}
use claw_net.Base.{
  ℕ, zero, suc, ◌+◌, String, Bool, true, false, not, Option, none, some, List, [], ◌∷◌, Bytes,
  if◌then◌else◌, ◌==◌,
}
use claw_net.Base.Int.{ℤ, pos, ltb_ℤ, eqb_ℤ}
use claw_net.Float.{Float64}
pub mod Signatures
pub mod Newest

-- The calls of libp2p: decoding a peer id, its public key, the check of a signature, with its error, and the
-- signature by a private key.
pub record PeerKeys : Type 0 where
  pub decode : String → Option Bytes
  pub extract_public_key : Bytes → Option Bytes
  pub verify : Bytes → Bytes → Bytes → Option Bool
  pub sign : Bytes → Bytes → Option Bytes

-- `SignedRep`, `ProfileRecordWire`
pub record Wire : Type 0 where
  pub payload : Bytes
  pub signature : Bytes

-- encoding/json on the two types of values.
pub record Json (R : Type 0) : Type 0 where
  pub marshal_record : R → Option Bytes
  pub unmarshal_record : Bytes → Option R
  pub marshal_wire : Wire → Option Bytes
  pub unmarshal_wire : Bytes → Option Wire

infixl 5 ◌>>=◌
abbrev pub ◌>>=◌ {ℓ κ} : {A : Type ℓ} {B : Type κ} → Option A → (A → Option B) → Option B
none >>= f = none
some a >>= f = f a

abbrev pub granted : Bool → Option (Unit {0})
granted true = some tt
granted false = none

-- The signature by the peer that the record names; its errors and its refusal are one.
abbrev pub signed_by : PeerKeys → String → Bytes → Bytes → Option (Unit {0})
signed_by keys peer payload signature = do
  pid ← keys.decode peer
  key ← keys.extract_public_key pid
  ok ← keys.verify key payload signature
  granted ok

module _ {R : Type 0} (json : Json R) (keys : PeerKeys) (prefix : String) (peer_of : R → String)
    (time_of : R → ℤ) where
  unfoldable pub verify_record : String → Bytes → Option R
  verify_record key value = do
    wire ← json.unmarshal_wire value
    r ← json.unmarshal_record wire.payload
    let signed = signed_by keys (peer_of r) wire.payload wire.signature >>= λ _. some r
    if key == join prefix (peer_of r) then signed else none

  -- `Validate`: whether it returns no error.
  abbrev pub validate_record : String → Bytes → Bool
  validate_record key value = elim (verify_record key value) [ none ↦ false | some _ ↦ true ]

  -- The loop of `Select`, from index i on.
  unfoldable pub select_from : String → ℕ → ℕ → ℤ → List Bytes → ℕ
  select_from key i best best_time [] = best
  select_from key i best best_time (v ∷ vs) = elim (verify_record key v) [
    | none ↦ select_from key (i + 1) best best_time vs
    | some r ↦ elim (ltb_ℤ best_time (time_of r)) [
      | true ↦ select_from key (i + 1) i (time_of r) vs
      | false ↦ select_from key (i + 1) best best_time vs
    ]
  ]

  unfoldable pub select_record : String → List Bytes → Option ℕ
  select_record key [] = none
  select_record key (v ∷ vs) = some (select_from key 0 0 (pos 0) (v ∷ vs))

module _ {R : Type 0} (json : Json R) (keys : PeerKeys) where
  -- A record is encoded, signed, and encoded with its signature.
  unfoldable pub sign_record : Bytes → R → Option Bytes
  sign_record secret r = do
    payload ← json.marshal_record r
    signature ← keys.sign secret payload
    json.marshal_wire (record { payload = payload; signature = signature })

-- `RepSnapshot`
pub record RepSnapshot : Type 0 where
  pub peer_id : String
  pub score : Float64
  pub tasks_completed : ℤ
  pub tasks_failed : ℤ
  pub contributions : ℤ
  pub knowledge_count : ℤ
  pub timestamp : ℤ

-- `ProfileRecord`; the profile is kept as its encoding.
pub record ProfileRecord : Type 0 where
  pub peer_id : String
  pub profile : Bytes
  pub timestamp : ℤ

abbrev pub rep_key_prefix : String
rep_key_prefix = "/clawnet-rep/"

abbrev pub profile_key_prefix : String
profile_key_prefix = "/clawnet-profile/"

module _ (json : Json RepSnapshot) (keys : PeerKeys) where
  abbrev pub verify_rep_snapshot : String → Bytes → Option RepSnapshot
  verify_rep_snapshot = verify_record json keys rep_key_prefix (λ r. r.peer_id) (λ r. r.timestamp)

  abbrev pub select_rep : String → List Bytes → Option ℕ
  select_rep = select_record json keys rep_key_prefix (λ r. r.peer_id) (λ r. r.timestamp)

  -- A snapshot with no time gets the present one.
  abbrev pub stamped : ℤ → RepSnapshot → RepSnapshot
  stamped now r = if eqb_ℤ r.timestamp (pos 0) then record r { timestamp = now } else r

  unfoldable pub sign_rep_snapshot : ℤ → Bytes → RepSnapshot → Option Bytes
  sign_rep_snapshot now secret r = sign_record json keys secret (stamped now r)

module _ (json : Json ProfileRecord) (keys : PeerKeys) where
  abbrev pub verify_profile_record : String → Bytes → Option ProfileRecord
  verify_profile_record =
      verify_record json keys profile_key_prefix (λ r. r.peer_id) (λ r. r.timestamp)

  abbrev pub select_profile : String → List Bytes → Option ℕ
  select_profile = select_record json keys profile_key_prefix (λ r. r.peer_id) (λ r. r.timestamp)

  unfoldable pub sign_profile_record : ℤ → Bytes → String → Bytes → Option Bytes
  sign_profile_record now secret peer profile =
      sign_record json keys secret (record { peer_id = peer; profile = profile; timestamp = now })
