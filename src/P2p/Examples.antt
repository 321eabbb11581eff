-- ===== src/P2p/Examples.antt =====
-- A toy scheme: a signature is the message behind a 1, and an encoding starts with the lengths of its parts.
use claw_net.Base.{
  ℕ, zero, suc, ◌≡◌, refl, arith, String, Bool, true, false, Option, none, some, List, [], ◌∷◌,
  Bytes, ◌++◌, length, take, drop, take_part, drop_part, subst,
}
use claw_net.Base.Int.{pos}
use claw_net.P2p.Records.{
  PeerKeys, Json, RepSnapshot, rep_key_prefix, verify_record, verify_rep_snapshot, select_rep,
  select_record, select_from,
}
use claw_net.P2p.Records.Signatures.{Signed, Accepted, verify_record_sound}
use claw_net.P2p.Records.Newest.{NotOlder, select_record-NotOlder}
use claw_net.P2p.Transactions.{
  TxnRecord, SignedTxn, TxnJson, sign_txn, counter_sign_txn, verify_txn, validate_txn, is_empty,
  txn_key,
}
use claw_net.P2p.Transactions.Signatures.{validate_txn_sound, Vouched, verify_txn-counter_sign_txn}

abbrev starts_with_one : Bytes → Bool
starts_with_one (suc zero ∷ _) = true
starts_with_one _ = false

abbrev toy_keys : PeerKeys
toy_keys = record {
  decode = λ peer. some (7 ∷ []);
  extract_public_key = λ pid. some pid;
  verify = λ key m s. some (starts_with_one s);
  sign = λ secret m. some (1 ∷ m);
}

abbrev snapshot : ℕ → RepSnapshot
snapshot time = record {
  peer_id = "12D3KooWAlice";
  score = 0;
  tasks_completed = pos 3;
  tasks_failed = pos 0;
  contributions = pos 1;
  knowledge_count = pos 0;
  timestamp = pos time;
}

-- The first byte is the time, the rest the signature.
abbrev toy_json : Json RepSnapshot
toy_json = record {
  marshal_record = λ r. none;
  unmarshal_record = λ b. elim b [ [] ↦ none | ◌∷◌ t _ ↦ some (snapshot t) ];
  marshal_wire = λ w. none;
  unmarshal_wire = λ b. some (record { payload = b; signature = drop 1 b });
}

abbrev alice_key : String
alice_key = "/clawnet-rep/12D3KooWAlice"

abbrev good : Bytes
good = 5 ∷ 1 ∷ []

accepted : verify_rep_snapshot toy_json toy_keys alice_key good ≡ some (snapshot 5)
unfolding verify_record
accepted = refl

verify_record_sound_example :
    Accepted toy_json toy_keys rep_key_prefix
      (λ r. r.peer_id)
      (λ r. r.timestamp)
      alice_key
      good
      (snapshot 5)
verify_record_sound_example =
    verify_record_sound toy_json toy_keys rep_key_prefix (λ r. r.peer_id) (λ r. r.timestamp)
      alice_key good (snapshot 5) accepted

-- The second value is not signed, the third is the newest.
abbrev values : List Bytes
values = good ∷ (9 ∷ 0 ∷ []) ∷ (8 ∷ 1 ∷ []) ∷ []

select_record-NotOlder_example :
    (i : ℕ) × (select_rep toy_json toy_keys alice_key values ≡ some i)
    × NotOlder toy_json toy_keys rep_key_prefix
        (λ r. r.peer_id)
        (λ r. r.timestamp)
        alice_key
        (pos 5)
        values
        i
select_record-NotOlder_example =
    select_record-NotOlder toy_json toy_keys rep_key_prefix (λ r. r.peer_id) (λ r. r.timestamp)
      alice_key values 0 good (snapshot 5) refl accepted (omega arith)

newest_chosen : select_rep toy_json toy_keys alice_key values ≡ some 2
unfolding select_record select_from verify_record
newest_chosen = refl

abbrev payment : TxnRecord
payment = record {
  txn_id = "t1";
  from = "12D3KooWAlice";
  to = "12D3KooWBob";
  amount = pos 100;
  reason = "task_reward";
  ref_id = "task";
  timestamp = pos 1700000000;
}

abbrev encode : SignedTxn → Bytes
encode w = length w.payload ∷ length w.sender_sig ∷ (w.payload ++ (w.sender_sig ++ w.receiver_sig))

abbrev decode : Bytes → Option SignedTxn
decode (m ∷ n ∷ rest) = some (record {
  payload = take m rest;
  sender_sig = take n (drop m rest);
  receiver_sig = drop n (drop m rest);
})
decode _ = none

decode-encode : (w : SignedTxn) → decode (encode w) ≡ some w
decode-encode w =
    let tail = w.sender_sig ++ w.receiver_sig in
    rw
      (
        take_part (length w.payload) w.payload (w.sender_sig ++ w.receiver_sig) refl,
        drop_part (length w.payload) w.payload (w.sender_sig ++ w.receiver_sig) refl,
        take_part (length w.sender_sig) w.sender_sig w.receiver_sig refl,
        drop_part (length w.sender_sig) w.sender_sig w.receiver_sig refl,
      )
      refl

abbrev txn_json : TxnJson
txn_json = record {
  marshal_txn = λ r. some (4 ∷ []);
  unmarshal_txn = λ b. some payment;
  marshal_signed = λ w. some (encode w);
  unmarshal_signed = decode;
}

txn_undone :
    (w : SignedTxn) (b : Bytes)
    → txn_json.marshal_signed w ≡ some b
    → txn_json.unmarshal_signed b ≡ some w
txn_undone w b h = let e : encode w ≡ b = cc h in subst (λ x. decode x ≡ some w) e (decode-encode w)

abbrev sender_signed : Bytes
sender_signed = encode (record { payload = 4 ∷ []; sender_sig = 1 ∷ 4 ∷ []; receiver_sig = [] })

abbrev both_signed : Bytes
both_signed =
    encode (record { payload = 4 ∷ []; sender_sig = 1 ∷ 4 ∷ []; receiver_sig = 1 ∷ 4 ∷ [] })

toy-Signed : (peer : String) (m s : Bytes) → toy_keys.sign [] m ≡ some s → Signed toy_keys peer m s
toy-Signed peer m s h =
    let e : 1 ∷ m ≡ s = cc h in
    (7 ∷ [], 7 ∷ [], refl, refl, subst (λ x. some (starts_with_one x) ≡ some true) e refl)

toy_some : (m s : Bytes) → toy_keys.sign [] m ≡ some s → is_empty s ≡ false
toy_some m s h = let e : 1 ∷ m ≡ s = cc h in subst (λ x. is_empty x ≡ false) e refl

alice_signs : sign_txn txn_json toy_keys (pos 1) [] payment ≡ some sender_signed
unfolding sign_txn
alice_signs = refl

bob_signs : counter_sign_txn txn_json toy_keys [] sender_signed ≡ some both_signed
unfolding counter_sign_txn
bob_signs = refl

verify_txn-counter_sign_txn_example :
    verify_txn txn_json toy_keys both_signed ≡ some (payment, true)
verify_txn-counter_sign_txn_example =
    verify_txn-counter_sign_txn txn_json toy_keys (pos 1) [] [] payment sender_signed both_signed
      (λ b h. refl) txn_undone toy_some (toy-Signed "12D3KooWAlice") (toy-Signed "12D3KooWBob")
      alice_signs bob_signs

payment_accepted : validate_txn txn_json toy_keys "/clawnet-txn/t1" both_signed ≡ true
unfolding validate_txn verify_txn
payment_accepted = refl

validate_txn_sound_example :
    (r : TxnRecord) × (full : Bool) × (verify_txn txn_json toy_keys both_signed ≡ some (r, full))
    × ("/clawnet-txn/t1" ≡ txn_key r.txn_id)
    × Vouched txn_json toy_keys both_signed r full
validate_txn_sound_example =
    validate_txn_sound txn_json toy_keys "/clawnet-txn/t1" both_signed payment_accepted
