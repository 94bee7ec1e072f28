-- ===== src/Prelude/Tests.antt =====
-- Boolean tests on the native numbers, the conditional, and case splits that keep the equation.
use Prim.Native.Nat.{ℕ, compare, Ordering}
use mathlib.Core.Path.{◌≡◌, refl}
use mathlib.Core.Logic.{◌↔◌, ◌⊎◌, inl, inr}
use mathlib.Core.Bool.{Bool, true, false}
use mathlib.Core.Option.{Option, none, some}
use native.Mathlib.Omega.{arith}

abbrev pub ltb : ℕ → ℕ → Bool
ltb a b = elim (compare a b) [ Ordering.lt ↦ true | _ ↦ false ]

abbrev pub leb : ℕ → ℕ → Bool
leb a b = elim (compare a b) [ Ordering.gt ↦ false | _ ↦ true ]

infix 50 ◌==◌
abbrev pub ◌==◌ : ℕ → ℕ → Bool
a == b = elim (compare a b) [ Ordering.eq ↦ true | _ ↦ false ]

infix 1 if◌then◌else◌
abbrev pub if◌then◌else◌ {ℓ} : {A : Type ℓ} → Bool → A → A → A
if true then x else y = x
if false then x else y = y

pub ==_iff : (a b : ℕ) → ((a == b) ≡ true) ↔ (a ≡ b)
==_iff a b = ground arith

pub Bool-cases : (b : Bool) → (b ≡ true) ⊎ (b ≡ false)
Bool-cases true = inl refl
Bool-cases false = inr refl

pub Option-cases {ℓ} : {A : Type ℓ} (o : Option A) → (o ≡ none) ⊎ ((a : A) × (o ≡ some a))
Option-cases none = inl refl
Option-cases (some a) = inr (a, refl)

-- `Option::is_some`, `Option::map` and the `?` of a chain of options.
abbrev pub is_some {ℓ} : {A : Type ℓ} → Option A → Bool
is_some none = false
is_some (some _) = true

abbrev pub map_or {ℓ κ} : {A : Type ℓ} {B : Type κ} → Option A → B → (A → B) → B
map_or none d f = d
map_or (some a) d f = f a

-- `Option::and_then`, the `?` in a function that returns an option.
abbrev pub and_then {ℓ κ} : {A : Type ℓ} {B : Type κ} → Option A → (A → Option B) → Option B
and_then none f = none
and_then (some a) f = f a

-- What a chain of options that succeeded says of its two steps.
pub and_then-some {ℓ κ} :
    {A : Type ℓ} {B : Type κ} {f : A → Option B} {b : B} (o : Option A)
    → and_then o f ≡ some b
    → (a : A) × (o ≡ some a) × (f a ≡ some b)
and_then-some none h = cc
and_then-some (some a) h = (a, refl, h)

pub some-inj {ℓ} : {A : Type ℓ} {a b : A} → ◌≡◌ {A = Option A} (some a) (some b) → a ≡ b
some-inj h = cc
