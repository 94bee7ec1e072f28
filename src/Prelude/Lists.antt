-- ===== src/Prelude/Lists.antt =====
-- Lists under native numbers: length, membership by recursion, and the queries that a `WHERE`
-- clause, `Iterator::any`, `filter` and `filter_map` make.
use bestiario.Prelude.Tests.{if◌then◌else◌, Bool-cases}
use Prim.Native.Nat.{ℕ, suc, ◌+◌}
use mathlib.Core.Path.{◌≡◌, refl, sym, ap, subst, ◌∙◌}
use mathlib.Core.Logic.{◌⊎◌, inl, inr}
use mathlib.Core.Bool.{Bool, true, false, ◌||◌}
use mathlib.Core.List.{map, List, [], ◌∷◌, ◌++◌}
use mathlib.Core.Option.{Option, none, some}
use native.Mathlib.Omega.{arith}

module _ {ℓ} {A : Type ℓ} where
  abbrev pub length : List A → ℕ
  length [] = 0
  length (x ∷ xs) = suc (length xs)

  pub length-append : (xs ys : List A) → length (xs ++ ys) ≡ length xs + length ys
  length-append [] ys = omega arith
  length-append (x ∷ xs) ys = omega (arith, length-append xs ys)

module _ {A : Type 0} where
  -- `In a xs`: `a` is one of the items.
  abbrev pub In : A → List A → Type 0
  In a [] = ⊥
  In a (x ∷ xs) = (a ≡ x) ⊎ In a xs

  abbrev pub All : (A → Type 0) → List A → Type 0
  All P [] = Unit
  All P (x ∷ xs) = P x × All P xs

  -- The rows are keyed: each key stands once.
  abbrev pub IsKeyed : (A → ℕ) → List A → Type 0
  IsKeyed key xs = (a b : A) → In a xs → In b xs → key a ≡ key b → a ≡ b

  -- Two tables hold the same rows, in any order.
  pub record SameRows (xs ys : List A) : Type 0 where
    pub to : (a : A) → In a xs → In a ys
    pub back : (a : A) → In a ys → In a xs

  unfoldable pub any : (A → Bool) → List A → Bool
  any p [] = false
  any p (x ∷ xs) = p x || any p xs

  unfoldable pub select : (A → Bool) → List A → List A
  select p [] = []
  select p (x ∷ xs) = let rest = select p xs in if p x then x ∷ rest else rest

  pub In-append_left : (a : A) (xs ys : List A) → In a xs → In a (xs ++ ys)
  In-append_left a [] ys h = elim h [ ]
  In-append_left a (x ∷ xs) ys (inl e) = inl e
  In-append_left a (x ∷ xs) ys (inr h) = inr (In-append_left a xs ys h)

  pub In-append_right : (a : A) (xs ys : List A) → In a ys → In a (xs ++ ys)
  In-append_right a [] ys h = h
  In-append_right a (x ∷ xs) ys h = inr (In-append_right a xs ys h)

  pub In-append_cases : (a : A) (xs ys : List A) → In a (xs ++ ys) → In a xs ⊎ In a ys
  In-append_cases a [] ys h = inr h
  In-append_cases a (x ∷ xs) ys (inl e) = inl (inl e)
  In-append_cases a (x ∷ xs) ys (inr h) = elim (In-append_cases a xs ys h) [
    | inl l ↦ inl (inr l)
    | inr r ↦ inr r
  ]

  In-cons-filter :
      (p : A → Bool) (a x : A) (xs ys : List A)
      → p x ≡ true
      → (In a ys → In a xs × (p a ≡ true))
      → In a (x ∷ ys)
      → In a (x ∷ xs) × (p a ≡ true)
  In-cons-filter p a x xs ys e ih (inl q) = (inl q, rw q e)
  In-cons-filter p a x xs ys e ih (inr i) = let (j, t) = ih i in (inr j, t)

  pub select-In : (p : A → Bool) (a : A) (xs : List A) → In a (select p xs) → In a xs × (p a ≡ true)
  unfolding select
  select-In p a [] h = elim h [ ]
  select-In p a (x ∷ xs) h = elim (Bool-cases (p x)) [
    | inl e ↦ In-cons-filter p a x xs (select p xs) e (λ i. select-In p a xs i) (rw e at h)
    | inr e ↦ let (i, t) = select-In p a xs (rw e at h) in (inr i, t)
  ]

  pub In-select : (p : A → Bool) (a : A) (xs : List A) → In a xs → p a ≡ true → In a (select p xs)
  unfolding select
  In-select p a [] h t = elim h [ ]
  In-select p a (x ∷ xs) (inl e) t = let px : p x ≡ true = rw (← e) t in rw px (inl e)
  In-select p a (x ∷ xs) (inr h) t = elim (Bool-cases (p x)) [
    | inl e ↦ rw e (inr (In-select p a xs h t))
    | inr e ↦ rw e (In-select p a xs h t)
  ]

  pub any-In : (p : A → Bool) (a : A) (xs : List A) → In a xs → p a ≡ true → any p xs ≡ true
  unfolding any
  any-In p a [] h t = elim h [ ]
  any-In p a (x ∷ xs) (inl e) t = let px : p x ≡ true = rw (← e) t in rw px
  any-In p a (x ∷ xs) (inr h) t = let rest = any-In p a xs h t in ground arith

  pub any-witness :
      (p : A → Bool) (xs : List A) → any p xs ≡ true → (a : A) × In a xs × (p a ≡ true)
  unfolding any
  any-witness p [] h = cc
  any-witness p (x ∷ xs) h = elim (Bool-cases (p x)) [
    | inl e ↦ (x, inl refl, e)
    | inr e ↦ let (a, i, t) = any-witness p xs (rw e at h) in (a, inr i, t)
  ]

module _ {A B : Type 0} where
  -- `Iterator::filter_map`; a column whose NULLs an aggregate skips.
  unfoldable pub collect : (A → Option B) → List A → List B
  collect f [] = []
  collect f (x ∷ xs) = let rest = collect f xs in elim (f x) [ none ↦ rest | some b ↦ b ∷ rest ]

  pub map-In : (f : A → B) (b : B) (xs : List A) → In b (map f xs) → (a : A) × In a xs × (b ≡ f a)
  map-In f b [] h = elim h [ ]
  map-In f b (x ∷ xs) (inl e) = (x, inl refl, e)
  map-In f b (x ∷ xs) (inr h) = let (a, i, e) = map-In f b xs h in (a, inr i, e)

  pub In-map : (f : A → B) (a : A) (xs : List A) → In a xs → In (f a) (map f xs)
  In-map f a [] h = h
  In-map f a (x ∷ xs) (inl e) = inl (ap f e)
  In-map f a (x ∷ xs) (inr h) = inr (In-map f a xs h)

  pub collect-In :
      (f : A → Option B) (b : B) (xs : List A)
      → In b (collect f xs)
      → (a : A) × In a xs × (f a ≡ some b)
  unfolding collect
  collect-In f b [] h = elim h [ ]
  collect-In f b (x ∷ xs) h = go (f x) refl (λ i. collect-In f b xs i) h
    where
      go :
          (o : Option B)
          → f x ≡ o
          → (In b (collect f xs) → (a : A) × In a xs × (f a ≡ some b))
          → In b (elim o [ none ↦ collect f xs | some c ↦ c ∷ collect f xs ])
          → (a : A) × In a (x ∷ xs) × (f a ≡ some b)
      go none e ih i = let (a, j, t) = ih i in (a, inr j, t)
      go (some c) e ih (inl q) = (x, inl refl, e ∙ ap some (sym q))
      go (some c) e ih (inr i) = let (a, j, t) = ih i in (a, inr j, t)

  pub In-collect :
      (f : A → Option B) (b : B) (a : A) (xs : List A)
      → In a xs
      → f a ≡ some b
      → In b (collect f xs)
  unfolding collect
  In-collect f b a [] h t = elim h [ ]
  In-collect f b a (x ∷ xs) (inl e) t =
      let fx : some b ≡ f x = sym (rw (← e) t) in
      subst (λ o. In b (elim o [ none ↦ collect f xs | some c ↦ c ∷ collect f xs ])) fx (inl refl)
  In-collect f b a (x ∷ xs) (inr h) t = go (f x) (In-collect f b a xs h t)
    where
      go :
          (o : Option B)
          → In b (collect f xs)
          → In b (elim o [ none ↦ collect f xs | some c ↦ c ∷ collect f xs ])
      go none i = i
      go (some c) i = inr i

  pub SameRows-collect :
      (f : A → Option B) {xs ys : List A} → SameRows xs ys → SameRows (collect f xs) (collect f ys)
  SameRows-collect f {xs} {ys} h = record {
    to = λ b i. let (a, j, t) = collect-In f b xs i in In-collect f b a ys (h.to a j) t;
    back = λ b i. let (a, j, t) = collect-In f b ys i in In-collect f b a xs (h.back a j) t;
  }

module _ {A : Type 0} where
  pub SameRows-select :
      (p : A → Bool) {xs ys : List A} → SameRows xs ys → SameRows (select p xs) (select p ys)
  SameRows-select p {xs} {ys} h = record {
    to = λ a i. let (j, t) = select-In p a xs i in In-select p a ys (h.to a j) t;
    back = λ a i. let (j, t) = select-In p a ys i in In-select p a xs (h.back a j) t;
  }

  pub SameRows-refl : (xs : List A) → SameRows xs xs
  SameRows-refl xs = record { to = λ a i. i; back = λ a i. i }
