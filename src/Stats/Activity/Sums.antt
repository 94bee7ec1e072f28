-- ===== src/Stats/Activity/Sums.antt =====
-- The counts of a window and of its buckets (crates/stats/src/activity.rs).
use bestiario.Prelude.{
  ℕ, ◌+◌, Bool, true, false, Option, none, some, List, [], ◌∷◌, ◌≡◌, refl, sym, ap, ◌∙◌, arith,
}
use bestiario.Prelude.Int.{ℤ, ◌≤ℤ◌}
use bestiario.Stats.Window.{Window, Buckets, contains}
use bestiario.Stats.Window.Tiling.{IsTiling}
use bestiario.Stats.Activity.{
  Order, Counts, count_if, over, dated_in, where_status, success, canceled,
}

abbrev bit : Bool → ℕ
bit true = 1
bit false = 0

-- A test that splits into two counts as the two together.
count_if-split :
    {A : Type 0} (p q r : A → Bool) (xs : List A)
    → ((x : A) → bit (p x) ≡ bit (q x) + bit (r x))
    → count_if p xs ≡ count_if q xs + count_if r xs
unfolding count_if
count_if-split p q r [] h = omega arith
count_if-split p q r (x ∷ xs) h =
    let rest = count_if-split p q r xs h in let here = h x in ground arith

count_if-none :
    {A : Type 0} (p : A → Bool) (xs : List A) → ((x : A) → p x ≡ false) → count_if p xs ≡ 0
unfolding count_if
count_if-none p [] h = refl
count_if-none p (x ∷ xs) h = rw (h x) (count_if-none p xs h)

-- The counts of buckets, added up.
unfoldable pub sum_over : (Counts → ℕ) → List Order → Buckets → ℕ
unfolding over
sum_over field orders [] = 0
sum_over field orders ((key, bucket) ∷ buckets) =
    field (over orders bucket) + sum_over field orders buckets

abbrev span : ℤ → ℤ → Window
span from until = record { from = from; until = until }

IsTiling-le : (from until : ℤ) (buckets : Buckets) → IsTiling from buckets until → from ≤ℤ until
IsTiling-le from until [] t = ground arith
IsTiling-le from until ((key, bucket) ∷ buckets) (q, filled, rest) =
    let later = IsTiling-le bucket.until until buckets rest in ground arith

contains-split :
    (a b c t : ℤ)
    → a ≤ℤ b
    → b ≤ℤ c
    → bit (contains (span a c) t) ≡ bit (contains (span a b) t) + bit (contains (span b c) t)
unfolding contains
contains-split a b c t h k = ground arith

contains-empty : (a t : ℤ) → contains (span a a) t ≡ false
unfolding contains
contains-empty a t = ground arith

-- The two facts, of a second that may be missing.
dated-split :
    (a b c : ℤ) (at : Option ℤ)
    → a ≤ℤ b
    → b ≤ℤ c
    → bit (dated_in (span a c) at) ≡ bit (dated_in (span a b) at) + bit (dated_in (span b c) at)
dated-split a b c none h k = omega arith
dated-split a b c (some t) h k = contains-split a b c t h k

dated-empty : (a : ℤ) (at : Option ℤ) → dated_in (span a a) at ≡ false
dated-empty a none = refl
dated-empty a (some t) = contains-empty a t

-- A count that asks whether a second of each order lies in the window.
sum_over-tiles :
    (field : Counts → ℕ) (second : Order → Option ℤ) (orders : List Order)
    → ((window : Window)
        → field (over orders window) ≡ count_if (λ order. dated_in window (second order)) orders)
    → (from until : ℤ) (buckets : Buckets) → IsTiling from buckets until
    → sum_over field orders buckets ≡ field (over orders (span from until))
unfolding sum_over
sum_over-tiles field second orders counts from until [] q = sym (
    counts (span from until)
    ∙ ap (λ b. count_if (λ order. dated_in (span from b) (second order)) orders) (sym q)
    ∙ count_if-none (λ order. dated_in (span from from) (second order)) orders
        (λ order. dated-empty from (second order)))
sum_over-tiles field second orders counts from until ((key, bucket) ∷ buckets) (q, filled, rest) =
    let low : bucket.from ≤ℤ bucket.until = omega arith in
    let high : bucket.until ≤ℤ until = IsTiling-le bucket.until until buckets rest in
    let whole : count_if (λ order. dated_in (span bucket.from until) (second order)) orders
        ≡ count_if (λ order. dated_in bucket (second order)) orders
          + count_if (λ order. dated_in (span bucket.until until) (second order)) orders =
      count_if-split (λ order. dated_in (span bucket.from until) (second order))
        (λ order. dated_in bucket (second order))
        (λ order. dated_in (span bucket.until until) (second order)) orders
        (λ order. dated-split bucket.from bucket.until until (second order) low high) in
    let ih = sum_over-tiles field second orders counts bucket.until until buckets rest in
    let moved : field (over orders (span bucket.from until))
        ≡ field (over orders (span from until)) =
      ap (λ a. field (over orders (span a until))) q in
    omega (
      arith,
      whole,
      ih,
      moved,
      counts bucket,
      counts (span bucket.until until),
      counts (span bucket.from until),
    )

-- For buckets that tile a window, the orders created, completed and canceled in the buckets add up
-- to those of the window.
pub over-tiles :
    (orders : List Order) (from until : ℤ) (buckets : Buckets)
    → IsTiling from buckets until
    → (sum_over (λ c. c.created) orders buckets ≡ (over orders (span from until)).created)
      × (sum_over (λ c. c.completed) orders buckets ≡ (over orders (span from until)).completed)
      × (sum_over (λ c. c.canceled) orders buckets ≡ (over orders (span from until)).canceled)
unfolding over
over-tiles orders from until buckets tiling = (
  sum_over-tiles (λ c. c.created) (λ order. some order.created_at) orders (λ window. refl) from
      until buckets tiling,
  sum_over-tiles (λ c. c.completed) (λ order. where_status success order.status order.success_at)
      orders (λ window. refl) from until buckets tiling,
  sum_over-tiles (λ c. c.canceled) (λ order. where_status canceled order.status order.canceled_at)
      orders (λ window. refl) from until buckets tiling,
)
