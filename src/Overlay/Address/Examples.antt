-- ===== src/Overlay/Address/Examples.antt =====
-- Overlay addresses at concrete bytes.
use claw_net.Base.{ℕ, ◌≡◌, refl, arith, List, [], ◌∷◌, All}
use claw_net.Overlay.Address.{overlay_address, overlay_subnet, partial_key_for_addr, copies}
use claw_net.Overlay.Address.Bits.{IsByte}
use claw_net.Overlay.Address.Roundtrip.{overlay_address-partial_key_for_addr}

abbrev last_bytes : List ℕ
last_bytes = 18 ∷ 52 ∷ 86 ∷ 120 ∷ 154 ∷ 188 ∷ 222 ∷ 240 ∷ 1 ∷ 35 ∷ 69 ∷ 103 ∷ 137 ∷ 171 ∷ []

last_bytes-AllBytes : All IsByte last_bytes
last_bytes-AllBytes = (
  omega arith,
  (
    omega arith,
    (
      omega arith,
      (
        omega arith,
        (
          omega arith,
          (
            omega arith,
            (
              omega arith,
              (
                omega arith,
                (
                  omega arith,
                  (omega arith, (omega arith, (omega arith, (omega arith, (omega arith, tt))))),
                ),
              ),
            ),
          ),
        ),
      ),
    ),
  ),
)

overlay_address-partial_key_for_addr_example :
    overlay_address (partial_key_for_addr (2 ∷ 5 ∷ last_bytes)) ≡ 2 ∷ 5 ∷ last_bytes
overlay_address-partial_key_for_addr_example =
    overlay_address-partial_key_for_addr 5 last_bytes (omega arith) refl last_bytes-AllBytes 2

address_of_zeros : overlay_address (copies 32 0) ≡ 2 ∷ 0 ∷ copies 14 0
unfolding overlay_address
address_of_zeros = refl

address_of_short_key : overlay_address (copies 31 0) ≡ copies 16 0
unfolding overlay_address
address_of_short_key = refl

subnet_of_key : overlay_subnet (254 ∷ copies 31 0) ≡ 3 ∷ 0 ∷ 3 ∷ copies 5 255
unfolding overlay_subnet overlay_address
subnet_of_key = refl
