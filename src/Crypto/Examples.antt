-- ===== src/Crypto/Examples.antt =====
-- A toy box: the key and the nonce in front of the message, and texts that name one list of bytes each.
use claw_net.Base.{
  ℕ, zero, suc, ◌≡◌, refl, String, true, Option, none, some, [], ◌∷◌, Bytes, length, if◌then◌else◌,
  ◌==◌, ◌==ℕ◌, subst,
}
use claw_net.Base.Int.{pos}
use claw_net.Base.Table.{find}
use claw_net.Crypto.{EncryptedEnvelope, Primitives, Engine, get_peer_key, sealed, encrypt, decrypt}
use claw_net.Crypto.Sessions.{decrypt_takes_key, decrypt-encrypt}

abbrev byte_string : ℕ → Bytes
byte_string zero = []
byte_string (suc n) = n ∷ byte_string n

abbrev text_bytes : String → Option Bytes
text_bytes t =
    if t == "key"
    then some (byte_string 32)
    else if t == "nonce"
    then some (byte_string 24)
    else if t == "cipher"
    then some (1 ∷ 2 ∷ 3 ∷ [])
    else none

-- By their lengths, keys, nonces and the one message have texts.
abbrev bytes_text : Bytes → String
bytes_text b = if length b ==ℕ 32 then "key" else if length b ==ℕ 24 then "nonce" else "cipher"

abbrev bad_envelope : EncryptedEnvelope
bad_envelope = record {
  version = pos 1;
  encrypted = true;
  pub_key = "key";
  nonce = "?";
  cipher = "?";
}

abbrev good_envelope : EncryptedEnvelope
good_envelope = record {
  version = pos 1;
  encrypted = true;
  pub_key = "key";
  nonce = "nonce";
  cipher = "cipher";
}

abbrev toy : Primitives
toy = record {
  seal = λ m n k s. m;
  open_box = λ c n k s. some c;
  encode_base64 = bytes_text;
  decode_base64 = text_bytes;
  marshal_envelope = λ e. some (7 ∷ []);
  unmarshal_envelope = λ b. elim b [ [] ↦ some bad_envelope | _ ↦ some good_envelope ];
  peer_id_to_curve25519 = λ pid. some (9 ∷ []);
}

abbrev bob : Engine
bob = record {
  priv_scalar = 5 ∷ [];
  pub_key = byte_string 32;
  sessions = [];
  peer_keys = ("alice", 9 ∷ []) ∷ [];
}

-- The envelope cannot be opened, and the key of Alice is replaced all the same.
replaced_by_bad_envelope : (decrypt toy "alice" [] bob).1 ≡ none
unfolding decrypt
replaced_by_bad_envelope = refl

decrypt_takes_key_example :
    let e' = (decrypt toy "alice" [] bob).0 in
    (encrypt toy "alice" (1 ∷ []) (some (byte_string 24)) e').1
    ≡ toy.marshal_envelope (sealed toy bob (byte_string 32) (1 ∷ []) (byte_string 24))
decrypt_takes_key_example =
    decrypt_takes_key toy "alice" [] (byte_string 32) (1 ∷ []) (byte_string 24) bad_envelope bob
      refl refl refl refl refl

abbrev alice : Engine
alice = record { priv_scalar = 6 ∷ []; pub_key = byte_string 32; sessions = []; peer_keys = [] }

bob_key_found : (get_peer_key toy "bob" alice).1 ≡ some (9 ∷ [])
unfolding get_peer_key find
bob_key_found = refl

sealed_by_alice :
    (encrypt toy "bob" (1 ∷ 2 ∷ 3 ∷ []) (some (byte_string 24)) alice).1 ≡ some (7 ∷ [])
unfolding encrypt get_peer_key find
sealed_by_alice = refl

json_undone :
    (y : Bytes)
    → toy.marshal_envelope (sealed toy alice (9 ∷ []) (1 ∷ 2 ∷ 3 ∷ []) (byte_string 24)) ≡ some y
    → toy.unmarshal_envelope y ≡ some (sealed toy alice (9 ∷ []) (1 ∷ 2 ∷ 3 ∷ []) (byte_string 24))
json_undone y h =
    let e : 7 ∷ [] ≡ y = cc h in subst (λ x. toy.unmarshal_envelope x ≡ some good_envelope) e refl

decrypt-encrypt_example : (decrypt toy "alice" (7 ∷ []) bob).1 ≡ some (1 ∷ 2 ∷ 3 ∷ [])
decrypt-encrypt_example =
    decrypt-encrypt toy "alice" "bob" (1 ∷ 2 ∷ 3 ∷ []) (byte_string 24) (9 ∷ []) (7 ∷ []) alice bob
      (refl, (refl, (refl, tt))) json_undone (λ m n. refl) refl refl bob_key_found sealed_by_alice
