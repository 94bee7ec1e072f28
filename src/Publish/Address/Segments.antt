-- ===== src/Publish/Address/Segments.antt =====
-- The segments of an address (crates/stats/src/publish/address.rs): `split(':')` and `split_once('-')`.
use bestiario.Prelude.{
  ℕ, ◌<◌, ◌/◌, ◌%◌, Bool, false, ◌||◌, none, some, String, List, [], ◌∷◌, ◌≡◌, refl, sym, ap, ◌∙◌,
  arith, subst, ◌==◌, Bool-cases, inl, inr, and_then-some, some-inj, ==_iff,
}
use bestiario.Prelude.Join.{has, ◌+++◌, join_with}
use Prim.Native.Char.{Char, code}
use text.Mathlib.TextEquality.{Char-path}
use bestiario.Prelude.Text.{digit}
use bestiario.Publish.Address.{
  split_once, padded, year_text, month_text, Bucket, of_month, of_year, bucket_text,
}
use bestiario.Publish.Address.Digits.{is_digit-digit}
use bestiario.Publish.Address.Parse.{split_on}

abbrev pub colon : ℕ
colon = 58

or-false : (a b : Bool) → (a || b) ≡ false → (a ≡ false) × (b ≡ false)
or-false a b h = (ground arith, ground arith)

-- A segment, up to the colon behind it.
pub split_on-append :
    (a b : String) → has colon a ≡ false → split_on colon (a +++ ":" +++ b) ≡ a ∷ split_on colon b
unfolding split_on has
split_on-append String.[] b h = refl
split_on-append (String.◌∷◌ c a) b h =
    let (e, rest) = or-false (code c == colon) (has colon a) h in
    rw (e, split_on-append a b rest) refl

pub split_on-only : (a : String) → has colon a ≡ false → split_on colon a ≡ a ∷ []
unfolding split_on has
split_on-only String.[] h = refl
split_on-only (String.◌∷◌ c a) h =
    let (e, rest) = or-false (code c == colon) (has colon a) h in rw (e, split_on-only a rest) refl

-- There is a segment.
split_on-cons : (s : String) → (x : String) × (xs : List String) × (split_on colon s ≡ x ∷ xs)
unfolding split_on
split_on-cons String.[] = (String.[], [], refl)
split_on-cons (String.◌∷◌ c s) =
    let (x, xs, q) = split_on-cons s in
    elim (Bool-cases (code c == colon)) [
      | inl e ↦ (String.[], split_on colon s, rw e refl)
      | inr e ↦ (String.◌∷◌ c x, xs, rw (e, q) refl)
    ]

glued :
    (c : Char) (x : String) (xs : List String)
    → join_with ":" (String.◌∷◌ c x ∷ xs) ≡ String.◌∷◌ c (join_with ":" (x ∷ xs))
unfolding join_with
glued c x [] = refl
glued c x (y ∷ ys) = refl

-- What splits into segments is their join.
pub join_with-split_on : (s : String) → join_with ":" (split_on colon s) ≡ s
unfolding split_on join_with
join_with-split_on String.[] = refl
join_with-split_on (String.◌∷◌ c s) =
    let (x, xs, q) = split_on-cons s in
    let whole : join_with ":" (x ∷ xs) ≡ s = ap (join_with ":") (sym q) ∙ join_with-split_on s in
    elim (Bool-cases (code c == colon)) [
      | inl e ↦
          rw (e, q)
            (ap (λ t. ":" +++ t) whole
              ∙ ap (λ d. String.◌∷◌ d s) (sym (Char-path c ":" ((==_iff (code c) colon).0 e))))
      | inr e ↦ rw (e, q) (glued c x xs ∙ ap (String.◌∷◌ c) whole)
    ]

pub split_once-append :
    (a b : String) → has 45 a ≡ false → split_once 45 (a +++ "-" +++ b) ≡ some (a, b)
unfolding split_once has
split_once-append String.[] b h = refl
split_once-append (String.◌∷◌ c a) b h =
    let (e, rest) = or-false (code c == 45) (has 45 a) h in rw (e, split_once-append a b rest) refl

pub split_once-none : (a : String) → has 45 a ≡ false → split_once 45 a ≡ none
unfolding split_once has
split_once-none String.[] h = refl
split_once-none (String.◌∷◌ c a) h =
    let (e, rest) = or-false (code c == 45) (has 45 a) h in rw (e, split_once-none a rest) refl

pub split_once-some : (s a b : String) → split_once 45 s ≡ some (a, b) → s ≡ a +++ "-" +++ b
unfolding split_once
split_once-some String.[] a b h = cc
split_once-some (String.◌∷◌ c s) a b h = elim (Bool-cases (code c == 45)) [
  | inl e ↦
      let q : (String.[], s) ≡ (a, b) = some-inj (rw e at h) in
      subst (λ p. String.◌∷◌ c s ≡ p.0 +++ "-" +++ p.1) q
        (ap (λ d. String.◌∷◌ d s) (Char-path c "-" ((==_iff (code c) 45).0 e)))
  | inr e ↦
      let ((before, after), found, f) = and_then-some (split_once 45 s) (rw e at h) in
      let q : (String.◌∷◌ c before, after) ≡ (a, b) = some-inj f in
      subst (λ p. String.◌∷◌ c s ≡ p.0 +++ "-" +++ p.1) q
        (ap (String.◌∷◌ c) (split_once-some s before after found))
]

-- Digits are neither colons nor dashes.
digit-plain : (n : ℕ) → n < 10 → ((code (digit n) == 58) ≡ false) × ((code (digit n) == 45) ≡ false)
digit-plain n h = let d = is_digit-digit n h in (ground arith, ground arith)

pub year-plain :
    (year : ℕ) → (has colon (year_text year) ≡ false) × (has 45 (year_text year) ≡ false)
unfolding has padded
year-plain year =
    let (a, a2) = digit-plain (year / 10 / 10 / 10 % 10) (omega arith) in
    let (b, b2) = digit-plain (year / 10 / 10 % 10) (omega arith) in
    let (c, c2) = digit-plain (year / 10 % 10) (omega arith) in
    let (d, d2) = digit-plain (year % 10) (omega arith) in
    (rw (a, b, c, d) refl, rw (a2, b2, c2, d2) refl)

month-plain : (month : ℕ) → has colon (month_text month) ≡ false
unfolding has padded
month-plain month =
    let (c, _) = digit-plain (month / 10 % 10) (omega arith) in
    let (d, _) = digit-plain (month % 10) (omega arith) in rw (c, d) refl

has-append : (c : ℕ) (a b : String) → has c a ≡ false → has c b ≡ false → has c (a +++ b) ≡ false
unfolding has
has-append c String.[] b h k = k
has-append c (String.◌∷◌ d a) b h k =
    let (e, rest) = or-false (code d == c) (has c a) h in rw (e, has-append c a b rest k) refl

pub bucket-plain : (bucket : Bucket) → has colon (bucket_text bucket) ≡ false
unfolding bucket_text has
bucket-plain (of_month year month) =
    has-append colon (year_text year) ("-" +++ month_text month) (year-plain year).0
      (month-plain month)
bucket-plain (of_year year) = (year-plain year).0
