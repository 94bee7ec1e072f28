-- ===== src/Prelude/Float.antt =====
-- `f64` as its sixty-four bits. The program parses, tests and compares floats when it ingests; it
-- computes with them only in reports, by the record `Floats`.
use bestiario.Prelude.Tests.{ltb, if◌then◌else◌}
use bestiario.Prelude.Int.{ℤ, pos, ltb_ℤ, sub_ℕ}
use Prim.Native.Nat.{ℕ, ◌%◌}
use mathlib.Core.List.{List}
use mathlib.Core.Path.{◌≡◌, refl}
use mathlib.Core.Bool.{Bool, true, not, ◌||◌, ◌&&◌}

-- An IEEE 754 binary64: sign, eleven bits of exponent, fifty-two of fraction.
pub record F64 : Type 0 where
  pub bits : ℕ

abbrev magnitude : F64 → ℕ
magnitude x = x.bits % 9223372036854775808

-- `f64::is_finite`: the exponent is not all ones.
unfoldable pub is_finite : F64 → Bool
is_finite x = ltb (magnitude x) 9218868437227405312

unfoldable pub is_nan : F64 → Bool
is_nan x = ltb 9218868437227405312 (magnitude x)

-- The bits of two floats that are no NaN are ordered by sign and magnitude; the zeros are equal.
unfoldable pub order_key : F64 → ℤ
order_key x = if ltb x.bits 9223372036854775808 then pos (magnitude x) else sub_ℕ 0 (magnitude x)

-- `a < b`
unfoldable pub lt_f64 : F64 → F64 → Bool
unfolding is_nan order_key
lt_f64 a b = not (is_nan a || is_nan b) && ltb_ℤ (order_key a) (order_key b)

-- `0.0`, and 1.5
abbrev pub zero_f64 : F64
zero_f64 = record { bits = 0 }

one_and_a_half : lt_f64 zero_f64 (record { bits = 4609434218613702656 }) ≡ true
unfolding lt_f64
one_and_a_half = refl

minus_one : lt_f64 (record { bits = 13830554455654793216 }) zero_f64 ≡ true
unfolding lt_f64
minus_one = refl

-- The arithmetic of the processor, as far as the statistics use it: `as f64`, difference, quotient, `powi(2)`
-- and the `sum` of an iterator.
pub record Floats : Type 0 where
  pub of_integer : ℤ → F64
  pub minus : F64 → F64 → F64
  pub divide : F64 → F64 → F64
  pub square : F64 → F64
  pub sum : List F64 → F64

-- `0.5`, `0.9` and `1.0`
abbrev pub half_f64 : F64
half_f64 = record { bits = 4602678819172646912 }

abbrev pub nine_tenths_f64 : F64
nine_tenths_f64 = record { bits = 4606281698874543309 }

abbrev pub unit_f64 : F64
unit_f64 = record { bits = 4607182418800017408 }
