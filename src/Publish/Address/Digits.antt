-- ===== src/Publish/Address/Digits.antt =====
-- Numbers of a fixed width (crates/stats/src/publish/address.rs).
use bestiario.Prelude.{
  ℕ, zero, suc, ◌+◌, ◌-◌, ◌*◌, ◌/◌, ◌%◌, ◌≤◌, ◌<◌, Bool, true, false, ◌&&◌, some, String, ◌≡◌, refl,
  ap, ◌∙◌, arith, ◌==◌, leb, and_then, and_then-some, some-inj, Bool-cases, inl, inr,
}
use bestiario.Prelude.Int.{pos}
use bestiario.Prelude.Text.{digit, parse_digits}
use Prim.Native.Char.{Char, code}
use text.Mathlib.TextEquality.{Char-path}
use bestiario.Publish.Address.{
  padded, year_text, month_text, fixed_digits, parse_year, new_year, new_month, char_count,
  is_digit, all_chars,
}

code-digit : (n : ℕ) → n < 10 → code (digit n) ≡ 48 + n
unfolding digit
code-digit zero h = refl
code-digit (suc zero) h = refl
code-digit (suc (suc zero)) h = refl
code-digit (suc (suc (suc zero))) h = refl
code-digit (suc (suc (suc (suc zero)))) h = refl
code-digit (suc (suc (suc (suc (suc zero))))) h = refl
code-digit (suc (suc (suc (suc (suc (suc zero)))))) h = refl
code-digit (suc (suc (suc (suc (suc (suc (suc zero))))))) h = refl
code-digit (suc (suc (suc (suc (suc (suc (suc (suc zero)))))))) h = refl
code-digit (suc (suc (suc (suc (suc (suc (suc (suc (suc zero))))))))) h = refl
code-digit (suc (suc (suc (suc (suc (suc (suc (suc (suc (suc n)))))))))) h = absurd (omega arith)

digit-code : (c : Char) → is_digit (code c) ≡ true → digit (code c - 48) ≡ c
digit-code c h =
    let below : code c - 48 < 10 = ground arith in
    let exact : 48 + (code c - 48) ≡ code c = ground arith in
    Char-path (digit (code c - 48)) c (code-digit (code c - 48) below ∙ exact)

pub is_digit-digit : (n : ℕ) → n < 10 → is_digit (code (digit n)) ≡ true
is_digit-digit n h = rw (code-digit n h) (ground arith)

abbrev two : ℕ → ℕ → String
two c d = String.◌∷◌ (digit c) (String.◌∷◌ (digit d) String.[])

abbrev four : ℕ → ℕ → ℕ → ℕ → String
four a b c d = String.◌∷◌ (digit a) (String.◌∷◌ (digit b) (two c d))

fixed_digits-two : (c d : ℕ) → c < 10 → d < 10 → fixed_digits (two c d) 2 ≡ some (c * 10 + d)
unfolding fixed_digits all_chars parse_digits
fixed_digits-two c d hc hd =
    rw (is_digit-digit c hc, is_digit-digit d hd)
      (ap some (omega (arith, code-digit c hc, code-digit d hd)))

fixed_digits-four :
    (a b c d : ℕ)
    → a < 10
    → b < 10
    → c < 10
    → d < 10
    → fixed_digits (four a b c d) 4 ≡ some (((a * 10 + b) * 10 + c) * 10 + d)
unfolding fixed_digits all_chars parse_digits
fixed_digits-four a b c d ha hb hc hd =
    rw (is_digit-digit a ha, is_digit-digit b hb, is_digit-digit c hc, is_digit-digit d hd)
      (ap some (omega (arith, code-digit a ha, code-digit b hb, code-digit c hc, code-digit d hd)))

pub parse_year-text : (year : ℕ) → year ≤ 9999 → parse_year (year_text year) ≡ some year
unfolding parse_year padded new_year
parse_year-text year h =
    let whole : ((year / 10 / 10 / 10 % 10 * 10 + year / 10 / 10 % 10) * 10 + year / 10 % 10) * 10
          + year % 10
        ≡ year =
      omega arith in
    let small : leb year 9999 ≡ true = ground arith in
    rw
      (
        fixed_digits-four (year / 10 / 10 / 10 % 10) (year / 10 / 10 % 10) (year / 10 % 10)
            (year % 10) (omega arith) (omega arith) (omega arith) (omega arith),
        whole,
        small,
      )
      refl

pub parse_month-text :
    (month : ℕ)
    → 1 ≤ month
    → month ≤ 12
    → and_then (fixed_digits (month_text month) 2) new_month ≡ some month
unfolding padded new_month
parse_month-text month low high =
    let whole : month / 10 % 10 * 10 + month % 10 ≡ month = omega arith in
    let test : (leb 1 month && leb month 12) ≡ true = ground arith in
    rw (fixed_digits-two (month / 10 % 10) (month % 10) (omega arith) (omega arith), whole, test)
      refl

-- The digits that stand in a text, from the number they make.
from-two :
    (c d : Char) (n : ℕ)
    → is_digit (code c) ≡ true
    → is_digit (code d) ≡ true
    → (0 + (code c - 48)) * 10 + (code d - 48) ≡ n
    → String.◌∷◌ c (String.◌∷◌ d String.[]) ≡ month_text n
unfolding padded
from-two c d n hc hd q =
    let tens : n / 10 % 10 ≡ code c - 48 = ground arith in
    let ones : n % 10 ≡ code d - 48 = ground arith in
    rw (tens, ones, digit-code c hc, digit-code d hd) refl

-- The texts that parse, read back digit by digit.
read-two : (text : String) (n : ℕ) → fixed_digits text 2 ≡ some n → text ≡ month_text n
unfolding fixed_digits all_chars parse_digits
read-two String.[] n h = cc
read-two (String.◌∷◌ c String.[]) n h = cc
read-two (String.◌∷◌ c (String.◌∷◌ d String.[])) n h = elim (Bool-cases (is_digit (code c))) [
  | inl e ↦ elim (Bool-cases (is_digit (code d))) [
    | inl f ↦ from-two c d n e f (some-inj (rw (e, f) at h))
    | inr f ↦ absurd (cc (rw (e, f) at h))
  ]
  | inr e ↦ absurd (cc (rw e at h))
]
read-two (String.◌∷◌ c (String.◌∷◌ d (String.◌∷◌ e s))) n h =
    let long : (suc (suc (suc (char_count s))) == 2) ≡ false = ground arith in
    absurd (cc (rw long at h))

from-four :
    (a b c d : Char) (n : ℕ)
    → is_digit (code a) ≡ true
    → is_digit (code b) ≡ true
    → is_digit (code c) ≡ true
    → is_digit (code d) ≡ true
    → (((0 + (code a - 48)) * 10 + (code b - 48)) * 10 + (code c - 48)) * 10 + (code d - 48) ≡ n
    → String.◌∷◌ a (String.◌∷◌ b (String.◌∷◌ c (String.◌∷◌ d String.[]))) ≡ year_text n
unfolding padded
from-four a b c d n ha hb hc hd q =
    let thousands : n / 10 / 10 / 10 % 10 ≡ code a - 48 = ground arith in
    let hundreds : n / 10 / 10 % 10 ≡ code b - 48 = ground arith in
    let tens : n / 10 % 10 ≡ code c - 48 = ground arith in
    let ones : n % 10 ≡ code d - 48 = ground arith in
    rw
      (
        thousands,
        hundreds,
        tens,
        ones,
        digit-code a ha,
        digit-code b hb,
        digit-code c hc,
        digit-code d hd,
      )
      refl

-- All four are digits where the test holds.
four-digits :
    (a b c d : Bool)
    → (a && (b && (c && (d && true)))) ≡ true
    → (a ≡ true) × (b ≡ true) × (c ≡ true) × (d ≡ true)
four-digits a b c d h = (ground arith, ground arith, ground arith, ground arith)

read-four : (text : String) (n : ℕ) → fixed_digits text 4 ≡ some n → text ≡ year_text n
unfolding fixed_digits all_chars parse_digits
read-four String.[] n h = cc
read-four (String.◌∷◌ a String.[]) n h = cc
read-four (String.◌∷◌ a (String.◌∷◌ b String.[])) n h = cc
read-four (String.◌∷◌ a (String.◌∷◌ b (String.◌∷◌ c String.[]))) n h = cc
read-four (String.◌∷◌ a (String.◌∷◌ b (String.◌∷◌ c (String.◌∷◌ d String.[])))) n h =
    elim (Bool-cases (
      is_digit (code a)
      && (is_digit (code b) && (is_digit (code c) && (is_digit (code d) && true))))) [
        | inl e ↦
            let (ha, hb, hc, hd) =
              four-digits (is_digit (code a)) (is_digit (code b)) (is_digit (code c))
                (is_digit (code d)) e in
            from-four a b c d n ha hb hc hd (some-inj (rw (ha, hb, hc, hd) at h))
        | inr e ↦ absurd (cc (rw e at h))
      ]
read-four (String.◌∷◌ a (String.◌∷◌ b (String.◌∷◌ c (String.◌∷◌ d (String.◌∷◌ e s))))) n h =
    let long : (suc (suc (suc (suc (suc (char_count s))))) == 4) ≡ false = ground arith in
    absurd (cc (rw long at h))

pub text-parse_year :
    (text : String) (year : ℕ) → parse_year text ≡ some year → text ≡ year_text year
unfolding parse_year new_year
text-parse_year text year h =
    let (n, e, f) = and_then-some (fixed_digits text 4) h in
    read-four text n e ∙ ap year_text (within n f)
  where
    within : (n : ℕ) → new_year (pos n) ≡ some year → n ≡ year
    within n f = elim (Bool-cases (leb n 9999)) [
      | inl t ↦ some-inj (rw t at f)
      | inr t ↦ absurd (cc (rw t at f))
    ]

pub text-parse_month :
    (text : String) (month : ℕ)
    → and_then (fixed_digits text 2) new_month ≡ some month
    → text ≡ month_text month
unfolding new_month
text-parse_month text month h =
    let (n, e, f) = and_then-some (fixed_digits text 2) h in
    read-two text n e ∙ ap month_text (within n f)
  where
    within : (n : ℕ) → new_month n ≡ some month → n ≡ month
    within n f = elim (Bool-cases (leb 1 n && leb n 12)) [
      | inl t ↦ some-inj (rw t at f)
      | inr t ↦ absurd (cc (rw t at f))
    ]

pub parse_year-bound : (text : String) (year : ℕ) → parse_year text ≡ some year → year ≤ 9999
unfolding parse_year new_year
parse_year-bound text year h = let (n, e, f) = and_then-some (fixed_digits text 4) h in ground arith

pub new_month-bound : (n month : ℕ) → new_month n ≡ some month → (1 ≤ month) × (month ≤ 12)
unfolding new_month
new_month-bound n month f = (ground arith, ground arith)
