-- ===== src/Overlay/Handshake/Examples.antt =====
-- Handshakes between two small peers, with a signature scheme that only repeats the key.
use claw_net.Base.{
  ℕ, zero, suc, ◌-◌, ◌≡◌, refl, arith, Bool, false, none, some, List, [], ◌∷◌, ◌++◌, length, leb,
  ◌==ℕ◌, if◌then◌else◌,
}
use claw_net.Overlay.Handshake.{
  Crypto, IsCrypto, done, overlay_handshake, meta_preamble, read_metadata, read_full,
  local_metadata, metadata, fields, read_payload_of, read_fields, read_field, check_meta,
}
use claw_net.Overlay.Handshake.Peering.{working, handshake_agrees}
use claw_net.Overlay.Handshake.Soundness.{Verified, handshake_sound}
use claw_net.Overlay.Handshake.Panics.{EndsInEmptyPriority, payload_of, handshake_panics}

abbrev copies : ℕ → ℕ → List ℕ
copies zero x = []
copies (suc n) x = x ∷ copies n x

abbrev same_head : List ℕ → List ℕ → Bool
same_head (x ∷ _) (y ∷ _) = x ==ℕ y
same_head _ _ = false

abbrev crypto : Crypto ℕ
crypto = record {
  public = copies 32;
  new512 = λ password. if leb (length password) 64 then some (λ m. password ++ m) else none;
  sign = λ k m. copies 64 k;
  verify = λ key m sig. same_head key sig;
}

crypto-IsCrypto : IsCrypto crypto
crypto-IsCrypto = record {
  public_size = λ k. refl;
  sign_size = λ k m. refl;
  verify_sign = λ k m. ground arith;
}

abbrev password : List ℕ
password = 7 ∷ []

handshake_agrees_example :
    let to_a = (overlay_handshake crypto (working []) 9 2 password).0 in
    let to_b = (overlay_handshake crypto (working []) 4 1 password).0 in
    ((overlay_handshake crypto (working (to_a ++ 5 ∷ [])) 4 1 password).1 ≡ done (copies 32 9, 2))
    × ((overlay_handshake crypto (working (to_b ++ [])) 9 2 password).1 ≡ done (copies 32 4, 2))
handshake_agrees_example =
    handshake_agrees crypto crypto-IsCrypto 4 9 1 2 password (5 ∷ []) [] [] [] (λ m. password ++ m)
      refl

abbrev from_nine : List ℕ
from_nine = (overlay_handshake crypto (working []) 9 2 password).0

handshake_sound_example : Verified crypto 1 password from_nine (copies 32 9) 2
unfolding overlay_handshake read_metadata read_full local_metadata metadata fields read_payload_of
    read_fields read_field check_meta
handshake_sound_example =
    handshake_sound crypto (working from_nine) 4 1 2 password (copies 32 9) refl

-- An empty priority, and 64 bytes.
abbrev empty_priority : List ℕ
empty_priority = meta_preamble ++ (0 ∷ 68 ∷ 0 ∷ 3 ∷ 0 ∷ 0 ∷ copies 64 1)

handshake_panics_example :
    EndsInEmptyPriority
      (length (payload_of crypto empty_priority) - 64)
      (payload_of crypto empty_priority)
unfolding overlay_handshake read_metadata read_full read_payload_of read_fields read_field
handshake_panics_example = handshake_panics crypto (working empty_priority) 4 1 password refl
