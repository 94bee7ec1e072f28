-- ===== src/Prelude/Int.antt =====
-- Signed integers over the native numbers: the `i64` of timestamps, amounts and durations.
-- Sums and orders go through the two parts of an integer, which are numbers that `omega` reads.
use bestiario.Prelude.Tests.{ltb, leb, ◌==◌, if◌then◌else◌}
use Prim.Native.Nat.{ℕ, suc, ◌+◌, ◌-◌, ◌%◌, ◌≤◌, ◌<◌}
use mathlib.Core.Path.{◌≡◌}
use mathlib.Core.Bool.{Bool, true, false, ◌&&◌}
use mathlib.Core.Option.{Option, none, some}
use native.Mathlib.Omega.{arith}

-- `negsuc n` is -(n + 1).
pub data ℤ : Type 0 where
  pos : ℕ → ℤ
  negsuc : ℕ → ℤ

abbrev pub pos_part : ℤ → ℕ
pos_part (pos n) = n
pos_part (negsuc n) = 0

abbrev pub neg_part : ℤ → ℕ
neg_part (pos n) = 0
neg_part (negsuc n) = suc n

-- a - b, as an integer.
abbrev pub sub_ℕ : ℕ → ℕ → ℤ
sub_ℕ a b = if leb b a then pos (a - b) else negsuc (b - a - 1)

infixl 65 ◌+ℤ◌ ◌-ℤ◌
infix 50 ◌≤ℤ◌ ◌<ℤ◌
unfoldable pub ◌+ℤ◌ : ℤ → ℤ → ℤ
a +ℤ b = sub_ℕ (pos_part a + pos_part b) (neg_part a + neg_part b)

unfoldable pub ◌-ℤ◌ : ℤ → ℤ → ℤ
a -ℤ b = sub_ℕ (pos_part a + neg_part b) (neg_part a + pos_part b)

abbrev pub ◌≤ℤ◌ : ℤ → ℤ → Type 0
a ≤ℤ b = pos_part a + neg_part b ≤ pos_part b + neg_part a

abbrev pub ◌<ℤ◌ : ℤ → ℤ → Type 0
a <ℤ b = pos_part a + neg_part b < pos_part b + neg_part a

abbrev pub ltb_ℤ : ℤ → ℤ → Bool
ltb_ℤ a b = ltb (pos_part a + neg_part b) (pos_part b + neg_part a)

abbrev pub leb_ℤ : ℤ → ℤ → Bool
leb_ℤ a b = leb (pos_part a + neg_part b) (pos_part b + neg_part a)

abbrev pub eqb_ℤ : ℤ → ℤ → Bool
eqb_ℤ a b = pos_part a + neg_part b == pos_part b + neg_part a

abbrev pub min_ℤ : ℤ → ℤ → ℤ
min_ℤ a b = if ltb_ℤ b a then b else a

abbrev pub max_ℤ : ℤ → ℤ → ℤ
max_ℤ a b = if ltb_ℤ a b then b else a

-- One lemma for each operation lets `omega` work with the operations shut, at any depth.
pub +ℤ_parts :
    (a b : ℤ)
    → pos_part (a +ℤ b) + neg_part a + neg_part b ≡ neg_part (a +ℤ b) + pos_part a + pos_part b
unfolding ◌+ℤ◌
+ℤ_parts a b = ground arith

pub -ℤ_parts :
    (a b : ℤ)
    → pos_part (a -ℤ b) + neg_part a + pos_part b ≡ neg_part (a -ℤ b) + pos_part a + neg_part b
unfolding ◌-ℤ◌
-ℤ_parts a b = ground arith

pub eq_of_parts : (a b : ℤ) → pos_part a + neg_part b ≡ pos_part b + neg_part a → a ≡ b
eq_of_parts a b h = ground arith

pub ltb_ℤ→lt : (a b : ℤ) → ltb_ℤ a b ≡ true → a <ℤ b
ltb_ℤ→lt a b h = ground arith

pub ltb_ℤ→le : (a b : ℤ) → ltb_ℤ a b ≡ false → b ≤ℤ a
ltb_ℤ→le a b h = ground arith

pub ruleset int_laws = (arith, +ℤ_parts, -ℤ_parts, eq_of_parts, ltb_ℤ→lt, ltb_ℤ→le)

-- The bounds of an `i64`, and the `as i64` of a `u64`, which keeps the 64 bits.
abbrev pub i64_max : ℤ
i64_max = pos 9223372036854775807

abbrev pub i64_min : ℤ
i64_min = negsuc 9223372036854775807

abbrev pub as_i64 : ℕ → ℤ
as_i64 n = if ltb n 9223372036854775808 then pos n else negsuc (18446744073709551615 - n)

-- Release arithmetic on `i64` wraps around.
unfoldable pub wrap_i64 : ℤ → ℤ
wrap_i64 (pos n) = as_i64 (n % 18446744073709551616)
wrap_i64 (negsuc n) = as_i64 (18446744073709551615 - n % 18446744073709551616)

-- `i64::rem_euclid` by a positive number.
unfoldable pub rem_euclid : ℤ → ℕ → ℤ
rem_euclid (pos n) d = pos (n % d)
rem_euclid (negsuc n) d = pos (d - 1 - n % d)

-- What an `i64` holds, and `i64::saturating_sub`.
abbrev pub IsI64 : ℤ → Type 0
IsI64 a = (i64_min ≤ℤ a) × (a ≤ℤ i64_max)

unfoldable pub saturating_sub : ℤ → ℤ → ℤ
saturating_sub a b =
    let exact = a -ℤ b in
    if ltb_ℤ exact i64_min then i64_min else if ltb_ℤ i64_max exact then i64_max else exact

-- Arithmetic that fits does not wrap.
pub wrap_i64-fits : (a : ℤ) → IsI64 a → wrap_i64 a ≡ a
unfolding wrap_i64
wrap_i64-fits (pos n) fits = ground arith
wrap_i64-fits (negsuc n) fits = ground arith

-- `i64::checked_sub`
unfoldable pub checked_sub : ℤ → ℤ → Option ℤ
checked_sub a b =
    let exact = a -ℤ b in if leb_ℤ i64_min exact && leb_ℤ exact i64_max then some exact else none
