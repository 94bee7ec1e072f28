-- ===== src/Prelude/Best.antt =====
-- `ORDER BY … LIMIT 1`: the row that comes first in an order, and the facts about it that do not
-- depend on how the table happens to be laid out.
use bestiario.Prelude.Tests.{if◌then◌else◌, Bool-cases, Option-cases}
use bestiario.Prelude.Lists.{In, SameRows}
use mathlib.Core.Path.{◌≡◌, refl, sym, ap, subst, ◌∙◌}
use mathlib.Core.Logic.{inl, inr, ◌≢◌}
use mathlib.Core.Bool.{Bool, true, false}
use mathlib.Core.List.{List, [], ◌∷◌}
use mathlib.Core.Option.{Option, none, some}
use native.Mathlib.Omega.{arith}

-- A strict order in which rows may tie, as a test.
pub record IsWeakOrder {A : Type 0} (before : A → A → Bool) : Type 0 where
  pub asym : (a b : A) → before a b ≡ true → before b a ≡ false
  pub neg_trans : (a b c : A) → before a b ≡ false → before b c ≡ false → before a c ≡ false

module _ {A : Type 0} (before : A → A → Bool) where
  abbrev pub sooner : A → Option A → A
  sooner x none = x
  sooner x (some y) = if before y x then y else x

  -- The first row by `before`.
  unfoldable pub first : List A → Option A
  first [] = none
  first (x ∷ xs) = some (sooner x (first xs))

  -- No two different rows tie.
  abbrev pub IsUntied : List A → Type 0
  IsUntied xs = (a b : A) → In a xs → In b xs → before a b ≡ false → before b a ≡ false → a ≡ b

  pub first-In : (a : A) (xs : List A) → first xs ≡ some a → In a xs
  unfolding first
  first-In a [] h = cc
  first-In a (x ∷ xs) h = go (first xs) (λ b e. first-In b xs e) h
    where
      go :
          (o : Option A)
          → ((b : A) → o ≡ some b → In b xs)
          → some (sooner x o) ≡ some a
          → In a (x ∷ xs)
      go none ih e = inl (cc)
      go (some y) ih e = elim (Bool-cases (before y x)) [
        | inl t ↦ inr (ih a (ground arith))
        | inr t ↦ inl (ground arith)
      ]

  In-first : (b : A) (xs : List A) → In b xs → first xs ≢ none
  unfolding first
  In-first b [] i = elim i [ ]
  In-first b (x ∷ xs) i = λ h. cc

  pub first-some : (b : A) (xs : List A) → In b xs → (a : A) × (first xs ≡ some a)
  first-some b xs i = elim (Option-cases (first xs)) [
    | inl e ↦ absurd (In-first b xs i e)
    | inr found ↦ found
  ]

  module _ (order : IsWeakOrder before) where
    irreflexive : (c : A) → before c c ≡ false
    irreflexive c = elim (Bool-cases (before c c)) [ inl t ↦ order.asym c c t | inr t ↦ t ]

    sooner_least :
        (a b x : A) (xs : List A) (o : Option A)
        → first xs ≡ o
        → ((c : A) → o ≡ some c → In b xs → before b c ≡ false)
        → sooner x o ≡ a
        → In b (x ∷ xs)
        → before b a ≡ false
    sooner_least a b x xs none e ih h (inl q) = rw (← h, q) (irreflexive x)
    sooner_least a b x xs none e ih h (inr j) = absurd (In-first b xs j e)
    sooner_least a b x xs (some y) e ih h i = elim (Bool-cases (before y x)) [
      | inl t ↦ subst (λ c. before b c ≡ false) (rw t at h) (late i t)
      | inr t ↦ subst (λ c. before b c ≡ false) (rw t at h) (kept i t)
    ]
      where
        late : In b (x ∷ xs) → before y x ≡ true → before b y ≡ false
        late (inl q) t = rw q (order.asym y x t)
        late (inr j) t = ih y refl j

        kept : In b (x ∷ xs) → before y x ≡ false → before b x ≡ false
        kept (inl q) t = rw q (irreflexive x)
        kept (inr j) t = order.neg_trans b y x (ih y refl j) t

    -- No row comes before the one that is returned.
    pub first_least : (a b : A) (xs : List A) → first xs ≡ some a → In b xs → before b a ≡ false
    unfolding first
    first_least a b [] h i = elim i [ ]
    first_least a b (x ∷ xs) h i =
        sooner_least a b x xs (first xs) refl (λ c e j. first_least c b xs e j) (cc) i

    first-none : (xs ys : List A) → SameRows xs ys → first xs ≡ none → first ys ≡ none
    first-none xs ys same h = elim (Option-cases (first ys)) [
      | inl e ↦ e
      | inr found ↦ let (b, e) = found in absurd (In-first b xs (same.back b (first-In b ys e)) h)
    ]

    -- The first row depends on the rows alone, not on the order in which they were stored.
    pub first-SameRows : (xs ys : List A) → SameRows xs ys → IsUntied xs → first xs ≡ first ys
    first-SameRows xs ys same untied = elim (Option-cases (first xs)) [
      | inl e ↦ e ∙ sym (first-none xs ys same e)
      | inr found ↦ let (a, e) = found in against a e
    ]
      where
        meet : (a b : A) → first xs ≡ some a → first ys ≡ some b → a ≡ b
        meet a b ea eb =
            let ia : In a xs = first-In a xs ea in
            let ib : In b xs = same.back b (first-In b ys eb) in
            untied a b ia ib (first_least b a ys eb (same.to a ia)) (first_least a b xs ea ib)

        against : (a : A) → first xs ≡ some a → first xs ≡ first ys
        against a ea = elim (Option-cases (first ys)) [
          | inl e ↦ absurd (In-first a ys (same.to a (first-In a xs ea)) e)
          | inr found ↦ let (b, eb) = found in ea ∙ ap some (meet a b ea eb) ∙ sym eb
        ]
