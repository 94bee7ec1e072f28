-- ===== src/Stats/Percentile/Rank.antt =====
-- The rank of a percentile among the samples (crates/stats/src/percentile.rs).
use bestiario.Prelude.{
  ℕ, zero, suc, ◌-◌, ◌≤◌, ◌<◌, Bool, true, false, some, List, [], ◌∷◌, ◌≡◌, refl, ap, ◌∙◌, arith,
  subst, if◌then◌else◌, Bool-cases, inl, inr, leb, some-inj, not, is_some, ◌+◌, ◌*◌, ◌/◌, ◌%◌, ◌⊎◌,
  ◌==◌,
}
use bestiario.Prelude.Int.{ℤ, leb_ℤ, ltb_ℤ, ◌≤ℤ◌}
use bestiario.Prelude.Lists.{length, any}
use native.Mathlib.Nat.{
  mod-add-div', mod-lt, le-div_iff_mul-le, mul-le-mul_right, mul_comm, mul-suc, le_trans,
}
use bestiario.Prelude.Float.{F64}
use bestiario.Stats.Percentile.{
  cmp_ℤ, is_less, insert_sorted, sorted, get_elem?, percentile, rank, product, unit,
}
use bestiario.Stats.Percentile.Product.{product-bound}

-- How many samples pass a test.
unfoldable pub tally : (ℤ → Bool) → List ℤ → ℕ
tally p [] = 0
tally p (b ∷ bs) = let rest = tally p bs in if p b then suc rest else rest

abbrev LeAll : ℤ → List ℤ → Type 0
LeAll a [] = Unit
LeAll a (b ∷ bs) = (a ≤ℤ b) × LeAll a bs

abbrev IsSorted : List ℤ → Type 0
IsSorted [] = Unit
IsSorted (a ∷ bs) = LeAll a bs × IsSorted bs

tally-insert_sorted :
    (p : ℤ → Bool) (a : ℤ) (bs : List ℤ) → tally p (insert_sorted cmp_ℤ a bs) ≡ tally p (a ∷ bs)
unfolding tally insert_sorted cmp_ℤ
tally-insert_sorted p a [] = refl
tally-insert_sorted p a (b ∷ bs) = let ih = tally-insert_sorted p a bs in ground arith

tally-sorted : (p : ℤ → Bool) (bs : List ℤ) → tally p (sorted cmp_ℤ bs) ≡ tally p bs
unfolding sorted tally
tally-sorted p [] = refl
tally-sorted p (b ∷ bs) =
    let ih = tally-sorted p bs in tally-insert_sorted p b (sorted cmp_ℤ bs) ∙ ground arith

less_ℤ : (b a : ℤ) → is_less (cmp_ℤ b a) ≡ ltb_ℤ b a
unfolding cmp_ℤ
less_ℤ b a = ground arith

LeAll-insert_sorted :
    (c a : ℤ) (bs : List ℤ) → c ≤ℤ a → LeAll c bs → LeAll c (insert_sorted cmp_ℤ a bs)
unfolding insert_sorted
LeAll-insert_sorted c a [] h all = (h, tt)
LeAll-insert_sorted c a (b ∷ bs) h (k, all) = elim (Bool-cases (ltb_ℤ b a)) [
  | inl e ↦ rw (less_ℤ b a, e) (k, LeAll-insert_sorted c a bs h all)
  | inr e ↦ rw (less_ℤ b a, e) (h, (k, all))
]

LeAll-le : (c a : ℤ) (bs : List ℤ) → c ≤ℤ a → LeAll a bs → LeAll c bs
LeAll-le c a [] h all = tt
LeAll-le c a (b ∷ bs) h (k, all) = (omega arith, LeAll-le c a bs h all)

insert_sorted-IsSorted : (a : ℤ) (bs : List ℤ) → IsSorted bs → IsSorted (insert_sorted cmp_ℤ a bs)
unfolding insert_sorted
insert_sorted-IsSorted a [] s = (tt, tt)
insert_sorted-IsSorted a (b ∷ bs) (low, s) = elim (Bool-cases (ltb_ℤ b a)) [
  | inl e ↦
      rw (less_ℤ b a, e)
        (LeAll-insert_sorted b a bs (ground arith) low, insert_sorted-IsSorted a bs s)
  | inr e ↦
      let h : a ≤ℤ b = ground arith in rw (less_ℤ b a, e) ((h, LeAll-le a b bs h low), (low, s))
]

sorted-IsSorted : (bs : List ℤ) → IsSorted (sorted cmp_ℤ bs)
unfolding sorted
sorted-IsSorted [] = tt
sorted-IsSorted (b ∷ bs) = insert_sorted-IsSorted b (sorted cmp_ℤ bs) (sorted-IsSorted bs)

LeAll-get : (c a : ℤ) (bs : List ℤ) (n : ℕ) → LeAll c bs → get_elem? bs n ≡ some a → c ≤ℤ a
unfolding get_elem?
LeAll-get c a [] n all h = cc
LeAll-get c a (b ∷ bs) zero (k, all) h = subst (λ x. c ≤ℤ x) (some-inj h) k
LeAll-get c a (b ∷ bs) (suc n) (k, all) h = LeAll-get c a bs n all h

le_self : (b : ℤ) → leb_ℤ b b ≡ true
le_self b = ground arith

lt_self : (b : ℤ) → ltb_ℤ b b ≡ false
lt_self b = ground arith

LeAll-tally : (a : ℤ) (bs : List ℤ) → LeAll a bs → tally (λ b. ltb_ℤ b a) bs ≤ 0
unfolding tally
LeAll-tally a [] all = omega arith
LeAll-tally a (b ∷ bs) (k, all) = let rest = LeAll-tally a bs all in ground arith

length-insert_sorted : (a : ℤ) (bs : List ℤ) → length (insert_sorted cmp_ℤ a bs) ≡ suc (length bs)
unfolding insert_sorted cmp_ℤ
length-insert_sorted a [] = refl
length-insert_sorted a (b ∷ bs) = let ih = length-insert_sorted a bs in ground arith

length-sorted : (bs : List ℤ) → length (sorted cmp_ℤ bs) ≡ length bs
unfolding sorted
length-sorted [] = refl
length-sorted (b ∷ bs) = length-insert_sorted b (sorted cmp_ℤ bs) ∙ ap suc (length-sorted bs)

get_elem?-some : (bs : List ℤ) (n : ℕ) → n < length bs → (a : ℤ) × (get_elem? bs n ≡ some a)
unfolding get_elem?
get_elem?-some [] n h = absurd (omega arith)
get_elem?-some (b ∷ bs) zero h = (b, refl)
get_elem?-some (b ∷ bs) (suc n) h = get_elem?-some bs n (omega arith)

-- At an index of a sorted list, that many are smaller at most, and one more at least no greater.
ranked :
    (a : ℤ) (bs : List ℤ) (n : ℕ)
    → IsSorted bs
    → get_elem? bs n ≡ some a
    → (n < tally (λ b. leb_ℤ b a) bs) × (tally (λ b. ltb_ℤ b a) bs ≤ n)
unfolding tally get_elem?
ranked a [] n s h = cc
ranked a (b ∷ bs) zero (low, s) h =
    let q : b ≡ a = some-inj h in
    let none_below : tally (λ x. ltb_ℤ x a) bs ≤ 0 =
      LeAll-tally a bs (subst (λ x. LeAll x bs) q low) in
    let low_self : leb_ℤ b a ≡ true = subst (λ x. leb_ℤ b x ≡ true) q (le_self b) in
    let not_below : ltb_ℤ b a ≡ false = subst (λ x. ltb_ℤ b x ≡ false) q (lt_self b) in
    (ground arith, ground arith)
ranked a (b ∷ bs) (suc n) (low, s) h =
    let (more, fewer) = ranked a bs n s h in
    let under : b ≤ℤ a = LeAll-get b a bs n low h in (ground arith, ground arith)

abbrev at_least_one : ℕ → ℕ
at_least_one n = if leb 1 n then n else 1

ceil-above : (u a : ℕ) → 0 < u → a ≤ (a + (u - 1)) / u * u
ceil-above u a h =
    let parts = mod-add-div' (a + (u - 1)) u in
    let rest : (a + (u - 1)) % u < u = mod-lt (a + (u - 1)) h in omega (arith, parts, rest)

suc_times : (k u : ℕ) → suc k * u ≡ k * u + u
suc_times k u = mul_comm (suc k) u ∙ mul-suc u k ∙ ap (λ a. a + u) (mul_comm u k)

ceil-least : (u a k : ℕ) → 0 < u → k < (a + (u - 1)) / u → k * u < a
ceil-least u a k h less =
    let whole : suc k * u ≤ a + (u - 1) = (le-div_iff_mul-le h).0 less in
    omega (arith, whole, suc_times k u)

ceil-bound : (u a n : ℕ) → 0 < u → a ≤ n * u → (a + (u - 1)) / u ≤ n
ceil-bound u a n h low = elim (Bool-cases (leb ((a + (u - 1)) / u) n)) [
  | inl e ↦ ground arith
  | inr e ↦
      let over : n < (a + (u - 1)) / u = ground arith in
      let more = ceil-least u a n h over in absurd (omega (arith, more, low))
]

unit-positive : 0 < unit
unit-positive = omega arith

rank-bound : (p : F64) (n : ℕ) → n < 9007199254740992 → rank p n ≤ n
unfolding rank
rank-bound p n h = ceil-bound unit (product p n) n unit-positive (product-bound p n h)

comparable : (samples : List ℤ) → any (λ s. not (is_some (cmp_ℤ s s))) samples ≡ false
unfolding any cmp_ℤ
comparable [] = refl
comparable (s ∷ samples) = let rest = comparable samples in ground arith

reached : (p : F64) (n t : ℕ) → at_least_one (rank p n) ≤ t → product p n ≤ t * unit
unfolding rank
reached p n t h =
    let above = ceil-above unit (product p n) unit-positive in
    let low : (product p n + (unit - 1)) / unit ≤ t = ground arith in
    le_trans above (mul-le-mul_right unit low)

passed : (p : F64) (n t : ℕ) → t < at_least_one (rank p n) → (t ≡ 0) ⊎ (t * unit < product p n)
unfolding rank
passed p n t h = elim (Bool-cases (t == 0)) [
  | inl e ↦ inl (ground arith)
  | inr e ↦ inr (ceil-least unit (product p n) t unit-positive (ground arith))
]

-- Of whole numbers, at least one and fewer than 2^53, a percentile is a value for which the
-- samples that do not exceed it are at least one and no fewer than the product of the clamped
-- share with the number of samples, rounded as an `f64` is, and for which the samples below it are
-- none, or fewer than that product.
pub percentile-ranked :
    (samples : List ℤ) (p : F64)
    → 0 < length samples
    → length samples < 9007199254740992
    → (value : ℤ) × (percentile cmp_ℤ samples p ≡ some value)
      × (1 ≤ tally (λ sample. leb_ℤ sample value) samples)
      × (product p (length samples) ≤ tally (λ sample. leb_ℤ sample value) samples * unit)
      × ((tally (λ sample. ltb_ℤ sample value) samples ≡ 0)
          ⊎ (tally (λ sample. ltb_ℤ sample value) samples * unit < product p (length samples)))
unfolding percentile
percentile-ranked [] p filled few = absurd (omega arith)
percentile-ranked (a ∷ bs) p filled few =
    let samples : List ℤ = a ∷ bs in
    let within : rank p (length samples) ≤ length samples = rank-bound p (length samples) few in
    let at : ℕ = at_least_one (rank p (length samples)) in
    let positive : 1 ≤ at = ground arith in
    let inside : at - 1 < length (sorted cmp_ℤ samples) = ground (arith, length-sorted samples) in
    let (value, q) = get_elem?-some (sorted cmp_ℤ samples) (at - 1) inside in
    let (more, fewer) = ranked value (sorted cmp_ℤ samples) (at - 1) (sorted-IsSorted samples) q in
    let reach : at ≤ tally (λ b. leb_ℤ b value) samples =
      omega (arith, more, tally-sorted (λ b. leb_ℤ b value) samples, positive) in
    let below : tally (λ b. ltb_ℤ b value) samples < at =
      omega (arith, fewer, tally-sorted (λ b. ltb_ℤ b value) samples, positive) in
    (
      value,
      rw (comparable samples) q,
      omega (arith, positive, reach),
      reached p (length samples) (tally (λ b. leb_ℤ b value) samples) reach,
      passed p (length samples) (tally (λ b. ltb_ℤ b value) samples) below,
    )
