-- ===== src/Overlay/Address.antt =====
-- Overlay addresses and the keys that they give back: clawnet-cli/internal/overlay/address.go. Bytes are
-- numbers below 256, a bit is 0 or 1, and the loops over bit positions run over lists of bits, the highest
-- bit of each byte first. The two functions that only format are left out.
use claw_net.Base.{
  ℕ, zero, suc, ◌+◌, ◌-◌, ◌*◌, ◌/◌, ◌%◌, Bool, true, false, not, ◌&&◌, List, [], ◌∷◌, ◌++◌, length,
  map, take, drop, ◌==ℕ◌, if◌then◌else◌,
}
pub mod Bits
pub mod Roundtrip
mod Examples

abbrev pub copies : ℕ → ℕ → List ℕ
copies zero x = []
copies (suc n) x = x ∷ copies n x

-- ^b
abbrev pub invert : ℕ → ℕ
invert b = 255 - b

abbrev pub byte_bits : ℕ → List ℕ → List ℕ
byte_bits b rest =
    b / 128 % 2
    ∷ b / 64 % 2
    ∷ b / 32 % 2
    ∷ b / 16 % 2
    ∷ b / 8 % 2
    ∷ b / 4 % 2
    ∷ b / 2 % 2
    ∷ b % 2
    ∷ rest

-- The bits (buf[idx/8] & (0x80 >> byte(idx%8))) >> byte(7-(idx%8)), for idx from 0 on.
abbrev pub bits_of : List ℕ → List ℕ
bits_of [] = []
bits_of (b ∷ bs) = byte_bits b (bits_of bs)

-- The variables of the loop of `OverlayAddress`.
pub record Scan : Type 0 where
  pub past_zero : Bool
  pub ones : ℕ
  pub bits : ℕ
  pub n_bits : ℕ
  pub temp : List ℕ

abbrev pub no_scan : Scan
no_scan = record { past_zero = false; ones = 0; bits = 0; n_bits = 0; temp = [] }

-- The lowest bit of bits << 1 is 0, so that | adds.
abbrev pub shifted : ℕ → ℕ → ℕ
shifted bits bit = bits * 2 % 256 + bit

abbrev pub scan_round : ℕ → Scan → Scan
scan_round bit s =
    if not s.past_zero && not (bit ==ℕ 0)
    then record s { ones = (s.ones + 1) % 256 }
    else if not s.past_zero && (bit ==ℕ 0)
    then record s { past_zero = true }
    else if s.n_bits + 1 ==ℕ 8
    then record s { bits = 0; n_bits = 0; temp = s.temp ++ shifted s.bits bit ∷ [] }
    else record s { bits = shifted s.bits bit; n_bits = s.n_bits + 1 }

abbrev pub scan : List ℕ → Scan → Scan
scan [] s = s
scan (bit ∷ bits) s = scan bits (scan_round bit s)

-- copy into an array of n zeros
abbrev pub array_of : ℕ → List ℕ → List ℕ
array_of n xs = take n (xs ++ copies n 0)

unfoldable pub overlay_address : List ℕ → List ℕ
overlay_address key =
    if not (length key ==ℕ 32)
    then copies 16 0
    else let s = scan (bits_of (map invert key)) no_scan in 2 ∷ s.ones ∷ array_of 14 s.temp

-- 0x02 | 0x01
abbrev pub set_subnet_bit : List ℕ → List ℕ
set_subnet_bit [] = []
set_subnet_bit (b ∷ bs) = (b + 1 - b % 2) ∷ bs

unfoldable pub overlay_subnet : List ℕ → List ℕ
overlay_subnet key = set_subnet_bit (take 8 (overlay_address key))

-- Eight bits to a byte.
abbrev pub bytes_of : List ℕ → List ℕ
bytes_of (a ∷ b ∷ c ∷ d ∷ e ∷ f ∷ g ∷ h ∷ rest) =
    (a * 128 + b * 64 + c * 32 + d * 16 + e * 8 + f * 4 + g * 2 + h) ∷ bytes_of rest
bytes_of _ = []

abbrev pub second : List ℕ → ℕ
second (_ ∷ x ∷ _) = x
second _ = 0

-- The bits that are set in the key before it is inverted: the ones, a 0, and the address from its third byte
-- on; what lies past the key is dropped, what is not reached stays 0.
unfoldable pub key_bits : List ℕ → List ℕ
key_bits addr = array_of 256 (copies (second addr) 1 ++ 0 ∷ bits_of (drop 2 addr))

unfoldable pub partial_key_for_addr : List ℕ → List ℕ
partial_key_for_addr addr = map invert (bytes_of (key_bits addr))

unfoldable pub subnet_key_transform : List ℕ → List ℕ
subnet_key_transform key = partial_key_for_addr (array_of 16 (overlay_subnet key))
