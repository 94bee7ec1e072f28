-- ===== src/Stats/Percentile.antt =====
-- Nearest-rank percentiles (crates/stats/src/percentile.rs).
pub mod Product
pub mod Rank
use bestiario.Prelude.{
  ℕ, zero, suc, ◌+◌, ◌-◌, ◌*◌, ◌/◌, ◌%◌, ◌^◌, ◌==◌, Bool, true, false, not, ◌&&◌, ◌||◌, Option,
  none, some, List, [], ◌∷◌, if◌then◌else◌, leb, ltb, is_some,
}
use bestiario.Prelude.Int.{ℤ, ltb_ℤ}
use bestiario.Prelude.Float.{F64, zero_f64, unit_f64, lt_f64, is_nan}
use bestiario.Prelude.Lists.{length, any}
use Prim.Native.Nat.{Ordering}

-- `partial_cmp` of a type of samples: whole numbers all compare, and a float that is a NaN compares to
-- nothing.
abbrev pub PartialCmp : Type 0 → Type 0
PartialCmp A = A → A → Option Ordering

unfoldable pub cmp_ℤ : PartialCmp ℤ
cmp_ℤ a b = some (if ltb_ℤ a b then Ordering.lt else if ltb_ℤ b a then Ordering.gt else Ordering.eq)

unfoldable pub partial_cmp_f64 : PartialCmp F64
unfolding lt_f64 is_nan
partial_cmp_f64 a b =
    if is_nan a || is_nan b
    then none
    else some (if lt_f64 a b then Ordering.lt else if lt_f64 b a then Ordering.gt else Ordering.eq)

abbrev pub is_less : Option Ordering → Bool
is_less (some Ordering.lt) = true
is_less _ = false

-- `sort_by`, which keeps the order of equals, on samples that all compare.
unfoldable pub insert_sorted : {A : Type 0} → PartialCmp A → A → List A → List A
insert_sorted cmp a [] = a ∷ []
insert_sorted cmp a (b ∷ bs) =
    let rest = insert_sorted cmp a bs in if is_less (cmp b a) then b ∷ rest else a ∷ b ∷ bs

unfoldable pub sorted : {A : Type 0} → PartialCmp A → List A → List A
unfolding insert_sorted
sorted cmp [] = []
sorted cmp (a ∷ bs) = insert_sorted cmp a (sorted cmp bs)

-- An index, and nothing where the program would stop.
unfoldable pub get_elem? : {A : Type 0} → List A → ℕ → Option A
get_elem? [] n = none
get_elem? (a ∷ bs) zero = some a
get_elem? (a ∷ bs) (suc n) = get_elem? bs n

-- `p.clamp(0.0, 1.0)`
unfoldable pub clamp : F64 → F64
clamp p = if lt_f64 p zero_f64 then zero_f64 else if lt_f64 unit_f64 p then unit_f64 else p

-- A float that is not negative as a number of units of 2^-1074, the smallest float.
abbrev pub unit : ℕ
unit = 2 ^ 1074

unfoldable pub units : F64 → ℕ
units x =
    let exponent = x.bits % 9223372036854775808 / 4503599627370496 in
    let fraction = x.bits % 4503599627370496 in
    if exponent == 0 then fraction else (fraction + 4503599627370496) * 2 ^ (exponent - 1)

-- How often a number is halved until it has 53 binary digits at most, on fuel.
unfoldable pub halvings : ℕ → ℕ → ℕ
halvings zero a = 0
halvings (suc fuel) a =
    let rest = halvings fuel (a / 2) in if ltb a 9007199254740992 then 0 else suc rest

-- To the nearest multiple, and of two that are as near to the even one.
unfoldable pub nearest : ℕ → ℕ → ℕ
nearest step a =
    let q = a / step in
    let r = a % step in
    if ltb step (2 * r) || 2 * r == step && q % 2 == 1 then suc q * step else q * step

-- The rounding of a number to 53 binary digits; it has at most 1200 halvings here.
unfoldable pub round : ℕ → ℕ
round a = nearest (2 ^ halvings 1200 a) a

-- `p.clamp(0.0, 1.0) * len as f64` in units, and 0 for a NaN, which `as usize` takes for 0.
unfoldable pub product : F64 → ℕ → ℕ
product p len = if is_nan p then 0 else round (units (clamp p) * round len)

-- `.ceil() as usize`
unfoldable pub rank : F64 → ℕ → ℕ
rank p len = (product p len + (unit - 1)) / unit

unfoldable pub percentile : {A : Type 0} → PartialCmp A → List A → F64 → Option A
unfolding sorted get_elem? any
percentile cmp [] p = none
percentile cmp (a ∷ bs) p =
    if any (λ sample. not (is_some (cmp sample sample))) (a ∷ bs)
    then none
    else let at = rank p (length (a ∷ bs)) in
      get_elem? (sorted cmp (a ∷ bs)) ((if leb 1 at then at else 1) - 1)
