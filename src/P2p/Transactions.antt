-- ===== src/P2p/Transactions.antt =====
-- Signed transactions of Shell in the distributed hash table: clawnet-cli/internal/p2p/dht_transaction.go.
-- Texts of errors are left out: `none` is an error.
use Prim.Native.String.{◌++◌ as join}
use claw_net.Base.{
  ℕ, zero, suc, ◌+◌, String, Bool, true, false, not, Option, none, some, List, [], ◌∷◌, Bytes,
  if◌then◌else◌, ◌==◌,
}
use claw_net.Base.Int.{ℤ, pos, eqb_ℤ}
use claw_net.P2p.Records.{PeerKeys, ◌>>=◌, signed_by}
pub mod Signatures

pub record TxnRecord : Type 0 where
  pub txn_id : String
  pub from : String
  pub to : String
  pub amount : ℤ
  pub reason : String
  pub ref_id : String
  pub timestamp : ℤ

-- `receiver_sig` is empty until the receiver signs.
pub record SignedTxn : Type 0 where
  pub payload : Bytes
  pub sender_sig : Bytes
  pub receiver_sig : Bytes

-- encoding/json on the two types.
pub record TxnJson : Type 0 where
  pub marshal_txn : TxnRecord → Option Bytes
  pub unmarshal_txn : Bytes → Option TxnRecord
  pub marshal_signed : SignedTxn → Option Bytes
  pub unmarshal_signed : Bytes → Option SignedTxn

abbrev pub txn_key_prefix : String
txn_key_prefix = "/clawnet-txn/"

abbrev pub txn_key : String → String
txn_key txn_id = join txn_key_prefix txn_id

abbrev pub is_empty : Bytes → Bool
is_empty [] = true
is_empty _ = false

abbrev pub stamp_txn : ℤ → TxnRecord → TxnRecord
stamp_txn now r = if eqb_ℤ r.timestamp (pos 0) then record r { timestamp = now } else r

module _ (json : TxnJson) (keys : PeerKeys) where
  unfoldable pub sign_txn : ℤ → Bytes → TxnRecord → Option Bytes
  sign_txn now secret r = do
    payload ← json.marshal_txn (stamp_txn now r)
    signature ← keys.sign secret payload
    json.marshal_signed (record { payload = payload; sender_sig = signature; receiver_sig = [] })

  unfoldable pub counter_sign_txn : Bytes → Bytes → Option Bytes
  counter_sign_txn secret value = do
    wire ← json.unmarshal_signed value
    signature ← keys.sign secret wire.payload
    json.marshal_signed (record wire { receiver_sig = signature })

  -- Whether the receiver's signature is there and valid; where it is not, that is no error.
  abbrev pub counter_signed : TxnRecord → SignedTxn → Bool
  counter_signed r wire =
      if is_empty wire.receiver_sig
      then false
      else (elim (signed_by keys r.to wire.payload wire.receiver_sig) [
        | none ↦ false
        | some _ ↦ true
      ])

  -- The record, and whether both have signed it.
  unfoldable pub verify_txn : Bytes → Option (TxnRecord × Bool)
  verify_txn value = do
    wire ← json.unmarshal_signed value
    r ← json.unmarshal_txn wire.payload
    signed ← signed_by keys r.from wire.payload wire.sender_sig
    some (r, counter_signed r wire)

  unfoldable pub validate_txn : String → Bytes → Bool
  validate_txn key value = elim (verify_txn value) [
    | none ↦ false
    | some (r, full) ↦ key == txn_key r.txn_id
  ]

  abbrev pub is_full : Bytes → Bool
  is_full value = elim (verify_txn value) [ none ↦ false | some (r, full) ↦ full ]

  -- The loop of `Select`, from index i on.
  unfoldable pub first_full : ℕ → List Bytes → ℕ
  first_full i [] = 0
  first_full i (v ∷ vs) = let rest = first_full (i + 1) vs in if is_full v then i else rest

  unfoldable pub select_txn : List Bytes → Option ℕ
  unfolding first_full
  select_txn [] = none
  select_txn (v ∷ vs) = some (first_full 0 (v ∷ vs))
