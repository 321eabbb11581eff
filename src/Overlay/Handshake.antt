-- ===== src/Overlay/Handshake.antt =====
-- The handshake of two peers: clawnet-cli/internal/overlay/handshake.go. Bytes are numbers, and what is
-- read from the connection is a list of them. The hash and the signature scheme are parameters.
mod Examples
mod Fields
mod Panics
mod Peering
mod Soundness
use claw_net.Base.{
  ℕ, zero, suc, ◌+◌, ◌-◌, ◌*◌, ◌/◌, ◌%◌, ◌≡◌, Bool, true, false, ◌||◌, not, Option, none, some,
  List, [], ◌∷◌, ◌++◌, length, take, drop, leb, ltb, ◌==ℕ◌, if◌then◌else◌,
}

abbrev pub wire_proto_major : ℕ
wire_proto_major = 0

abbrev pub wire_proto_minor : ℕ
wire_proto_minor = 5

abbrev pub public_key_size : ℕ
public_key_size = 32

abbrev pub signature_size : ℕ
signature_size = 64

-- 'm', 'e', 't', 'a'
abbrev pub meta_preamble : List ℕ
meta_preamble = 109 ∷ 101 ∷ 116 ∷ 97 ∷ []

-- golang.org/x/crypto/blake2b and crypto/ed25519. `new512` is keyed by the password, and fails
-- where that is too long; its result hashes a message.
pub record Crypto (K : Type 0) : Type 0 where
  pub public : K → List ℕ
  pub new512 : List ℕ → Option (List ℕ → List ℕ)
  pub sign : K → List ℕ → List ℕ
  pub verify : List ℕ → List ℕ → List ℕ → Bool

-- What is documented of ed25519: the sizes, and that a signature verifies.
pub record IsCrypto {K : Type 0} (c : Crypto K) : Type 0 where
  pub public_size : (k : K) → length (c.public k) ≡ public_key_size
  pub sign_size : (k : K) (m : List ℕ) → length (c.sign k m) ≡ signature_size
  pub verify_sign : (k : K) (m : List ℕ) → c.verify (c.public k) m (c.sign k m) ≡ true

pub data HandshakeError : Type 0 where
  blake2b_init : HandshakeError
  set_deadline : HandshakeError
  write_handshake : HandshakeError
  read_header : HandshakeError
  invalid_preamble : HandshakeError
  too_short : ℕ → HandshakeError
  read_payload : HandshakeError
  version_mismatch : ℕ → ℕ → HandshakeError
  invalid_public_key : HandshakeError
  invalid_signature : HandshakeError

-- A call returns values, returns an error, or panics.
pub data Outcome (A : Type 0) : Type 0 where
  done : A → Outcome A
  failed : HandshakeError → Outcome A
  panicked : Outcome A

-- The connection: whether its deadline can be set, whether a write succeeds, and what the peer sends.
pub record Conn : Type 0 where
  pub deadline_ok : Bool
  pub write_ok : Bool
  pub incoming : List ℕ

-- bytes.Equal
abbrev pub same_bytes : List ℕ → List ℕ → Bool
same_bytes [] [] = true
same_bytes (x ∷ xs) (y ∷ ys) = if x ==ℕ y then same_bytes xs ys else false
same_bytes _ _ = false

-- binary.BigEndian
abbrev pub append_uint16 : List ℕ → ℕ → List ℕ
append_uint16 bs n = bs ++ (n / 256 % 256) ∷ (n % 256) ∷ []

abbrev pub uint16 : List ℕ → ℕ
uint16 (a ∷ b ∷ _) = a * 256 + b
uint16 _ = 0

-- The encoding of our metadata: the header, four fields and the signature.
unfoldable pub fields : List ℕ → ℕ → List ℕ
fields pub_key priority =
    append_uint16 (append_uint16 (append_uint16 [] 0) 2) wire_proto_major
    ++ (append_uint16 (append_uint16 (append_uint16 [] 1) 2) wire_proto_minor
        ++ (append_uint16 (append_uint16 [] 2) public_key_size
            ++ (pub_key ++ (append_uint16 (append_uint16 [] 3) 1 ++ priority ∷ []))))

unfoldable pub metadata : List ℕ → ℕ → List ℕ → List ℕ
metadata pub_key priority sig =
    let rest = fields pub_key priority ++ sig in
    meta_preamble ++ (append_uint16 [] (length rest % 65536) ++ rest)

-- io.ReadFull: n bytes and the rest of the stream.
unfoldable pub read_full : ℕ → List ℕ → Option (List ℕ × List ℕ)
read_full n bs = if leb n (length bs) then some (take n bs, drop n bs) else none

-- The variables that the loop over the fields sets.
pub record Meta : Type 0 where
  pub major : ℕ
  pub minor : ℕ
  pub key : List ℕ
  pub prio : ℕ

abbrev pub no_meta : Meta
no_meta = record { major = 0; minor = 0; key = []; prio = 0 }

-- `b[:n]` may reach past the length of `b`, up to its capacity: `mem` is the memory from the start of
-- `b` to the end of the payload.
abbrev pub slice_to : ℕ → List ℕ → Outcome (List ℕ)
slice_to n mem = if leb n (length mem) then done (take n mem) else panicked

abbrev pub on_slice : Outcome (List ℕ) → (List ℕ → Meta) → Outcome Meta
on_slice (done b) f = done (f b)
on_slice (failed e) f = failed e
on_slice panicked f = panicked

-- `b[0]` must be within the length.
abbrev pub on_index : ℕ → List ℕ → (ℕ → Meta) → Outcome Meta
on_index zero _ f = panicked
on_index (suc _) [] f = panicked
on_index (suc _) (x ∷ _) f = done (f x)

-- One field: its tag, and the slice that starts at its value.
unfoldable pub read_field : ℕ → ℕ → List ℕ → Meta → Outcome Meta
read_field tag len mem m =
    if tag ==ℕ 0
    then on_slice (slice_to 2 mem) (λ b. record m { major = uint16 b })
    else if tag ==ℕ 1
    then on_slice (slice_to 2 mem) (λ b. record m { minor = uint16 b })
    else if tag ==ℕ 2
    then on_slice (slice_to public_key_size mem) (λ b. record m { key = b })
    else if tag ==ℕ 3
    then on_index len mem (λ x. record m { prio = x })
    else done m

-- The loop over the fields: `len` is the length of `tlvData`. A round consumes at least 4 bytes, so a
-- fuel of `len` is enough.
unfoldable pub read_fields : ℕ → ℕ → List ℕ → Meta → Outcome Meta
read_fields zero len mem m = done m
read_fields (suc fuel) len mem m = elim (ltb len 4) [
  | true ↦ done m
  | false ↦
      let tag = uint16 mem in
      let tlen = uint16 (drop 2 mem) in
      elim (ltb (len - 4) tlen) [
        | true ↦ done m
        | false ↦ elim (read_field tag (len - 4) (drop 4 mem) m) [
          | done m' ↦ read_fields fuel (len - 4 - tlen) (drop tlen (drop 4 mem)) m'
          | failed e ↦ failed e
          | panicked ↦ panicked
        ]
      ]
]

module _ {K : Type 0} (c : Crypto K) where
  -- The checks of what was read.
  unfoldable pub check_meta : ℕ → List ℕ → List ℕ → Meta → Outcome (List ℕ × ℕ)
  check_meta priority password sig m =
      if not (m.major ==ℕ wire_proto_major) || not (m.minor ==ℕ wire_proto_minor)
      then failed (version_mismatch m.major m.minor)
      else if not (length m.key ==ℕ public_key_size)
      then failed invalid_public_key
      else elim (c.new512 password) [
        | none ↦ failed blake2b_init
        | some hash ↦
            if c.verify m.key (hash m.key) sig
            then done (m.key, (if ltb priority m.prio then m.prio else priority))
            else failed invalid_signature
      ]

  unfoldable pub read_payload_of : ℕ → List ℕ → ℕ → List ℕ → Outcome (List ℕ × ℕ)
  read_payload_of priority password rem payload =
      elim (read_fields (rem - signature_size) (rem - signature_size) payload no_meta) [
        | done m ↦ check_meta priority password (drop (rem - signature_size) payload) m
        | failed e ↦ failed e
        | panicked ↦ panicked
      ]

  -- Decode remote metadata.
  unfoldable pub read_metadata : ℕ → List ℕ → List ℕ → Outcome (List ℕ × ℕ)
  read_metadata priority password incoming = elim (read_full 6 incoming) [
    | none ↦ failed read_header
    | some (hdr, rest) ↦
        if not (same_bytes (take 4 hdr) meta_preamble)
        then failed invalid_preamble
        else let rem = uint16 (drop 4 hdr) in
          if ltb rem signature_size then failed (too_short rem) else elim (read_full rem rest) [
            | none ↦ failed read_payload
            | some (payload, _) ↦ read_payload_of priority password rem payload
          ]
  ]

  unfoldable pub local_metadata : K → ℕ → (List ℕ → List ℕ) → List ℕ
  local_metadata key priority hash =
      metadata (c.public key) priority (c.sign key (hash (c.public key)))

  -- What is sent, and the outcome.
  unfoldable pub overlay_handshake : Conn → K → ℕ → List ℕ → List ℕ × Outcome (List ℕ × ℕ)
  overlay_handshake conn key priority password = elim (c.new512 password) [
    | none ↦ ([], failed blake2b_init)
    | some hash ↦
        if not conn.deadline_ok
        then ([], failed set_deadline)
        else if not conn.write_ok
        then ([], failed write_handshake)
        else (local_metadata key priority hash, read_metadata priority password conn.incoming)
  ]
