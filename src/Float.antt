-- ===== src/Float.antt =====
-- Go's float64. A value is its IEEE 754 bit pattern: a sign bit, eleven bits of exponent, 52 of
-- fraction. Comparison reads the pattern; arithmetic, exp and the rounding of a literal are those of
-- the processor and of the package math, so they are a parameter of what uses them.
use claw_net.Base.{ℕ, ◌-◌, Bool, false, not, ◌&&◌, if◌then◌else◌, ltb, leb, ◌==ℕ◌}
use claw_net.Base.Int.{ℤ, two_63}

abbrev pub Float64 : Type 0
Float64 = ℕ

abbrev pub zero64 : Float64
zero64 = 0

pub record Floats : Type 0 where
  pub add : Float64 → Float64 → Float64
  pub sub : Float64 → Float64 → Float64
  pub mul : Float64 → Float64 → Float64
  pub div : Float64 → Float64 → Float64
  pub exp : Float64 → Float64
  -- the literal m * 10^-k
  pub decimal : ℤ → ℕ → Float64

abbrev sign_bit : Float64 → Bool
sign_bit x = leb two_63 x

abbrev magnitude : Float64 → ℕ
magnitude x = if sign_bit x then x - two_63 else x

-- Above the pattern of infinity stand the values that are no number.
abbrev is_nan : Float64 → Bool
is_nan x = ltb 0x7FF0000000000000 (magnitude x)

-- a < b: false if one is no number; -0.0 is not less than 0.0.
unfoldable pub less : Float64 → Float64 → Bool
less a b =
    not (is_nan a)
    && not (is_nan b)
    && (if sign_bit a
        then (if sign_bit b
            then ltb (magnitude b) (magnitude a)
            else not (magnitude a ==ℕ 0 && magnitude b ==ℕ 0))
        else (if sign_bit b then false else ltb a b))

-- a >= b: false if one is no number.
unfoldable pub at_least : Float64 → Float64 → Bool
unfolding less
at_least a b = not (is_nan a) && not (is_nan b) && not (less a b)
