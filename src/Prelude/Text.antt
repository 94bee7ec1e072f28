-- ===== src/Prelude/Text.antt =====
-- The text operations of the standard library that the program calls: `str::trim`, `is_empty`,
-- `i64::from_str` and `to_string`.
use bestiario.Prelude.Tests.{ltb, leb, ◌==◌, if◌then◌else◌}
use bestiario.Prelude.Int.{ℤ, pos, negsuc}
use Prim.Native.Nat.{ℕ, zero, suc, ◌+◌, ◌-◌, ◌*◌, ◌/◌, ◌%◌}
use Prim.Native.Char.{Char, code}
use Prim.Native.String.{String}
use mathlib.Core.Path.{◌≡◌, refl}
use mathlib.Core.Bool.{Bool, true, false, ◌||◌, ◌&&◌}
use mathlib.Core.Option.{Option, none, some}

-- `char::is_whitespace`: Unicode's White_Space.
unfoldable pub is_whitespace : ℕ → Bool
is_whitespace c =
    leb 9 c && leb c 13
    || c == 32
    || c == 133
    || c == 160
    || c == 5760
    || leb 8192 c && leb c 8202
    || c == 8232
    || c == 8233
    || c == 8239
    || c == 8287
    || c == 12288

unfoldable pub is_empty : String → Bool
is_empty String.[] = true
is_empty (String.◌∷◌ c s) = false

unfoldable pub trim_start : String → String
trim_start String.[] = String.[]
trim_start (String.◌∷◌ c s) =
    let rest = trim_start s in if is_whitespace (code c) then rest else String.◌∷◌ c s

unfoldable pub trim_end : String → String
trim_end String.[] = String.[]
trim_end (String.◌∷◌ c s) =
    let rest = trim_end s in
    if is_whitespace (code c) && is_empty rest then String.[] else String.◌∷◌ c rest

-- `str::trim`
unfoldable pub trim : String → String
unfolding trim_start trim_end is_whitespace is_empty
trim s = trim_end (trim_start s)

-- `value.trim().is_empty()`
unfoldable pub is_blank : String → Bool
unfolding trim
is_blank s = is_empty (trim s)

-- The digits of an `i64`, or nothing where a character is no digit.
unfoldable pub parse_digits : ℕ → String → Option ℕ
parse_digits n String.[] = some n
parse_digits n (String.◌∷◌ c s) =
    let rest = parse_digits (n * 10 + (code c - 48)) s in
    if leb 48 (code c) && leb (code c) 57 then rest else none

abbrev bounded_pos : Option ℕ → Option ℤ
bounded_pos none = none
bounded_pos (some n) = if leb n 9223372036854775807 then some (pos n) else none

abbrev bounded_neg : Option ℕ → Option ℤ
bounded_neg none = none
bounded_neg (some zero) = some (pos 0)
bounded_neg (some (suc n)) = if leb n 9223372036854775807 then some (negsuc n) else none

-- A sign must have a digit behind it.
abbrev unsigned : String → Option ℕ
unsigned s = if is_empty s then none else parse_digits 0 s

-- `str::parse::<i64>()`
unfoldable pub parse_i64 : String → Option ℤ
unfolding parse_digits is_empty
parse_i64 String.[] = none
parse_i64 (String.◌∷◌ c s) =
    if code c == 43
    then bounded_pos (unsigned s)
    else if code c == 45
    then bounded_neg (unsigned s)
    else bounded_pos (parse_digits 0 (String.◌∷◌ c s))

-- The character of a digit below 10.
unfoldable pub digit : ℕ → Char
digit n =
    if n == 0
    then "0"
    else if n == 1
    then "1"
    else if n == 2
    then "2"
    else if n == 3
    then "3"
    else if n == 4
    then "4"
    else if n == 5
    then "5"
    else if n == 6
    then "6"
    else if n == 7
    then "7"
    else if n == 8
    then "8"
    else "9"

-- `to_string` of a number below 2 ^ 64: twenty digits are enough.
unfoldable pub show_digits : ℕ → ℕ → String → String
show_digits zero n rest = rest
show_digits (suc fuel) n rest =
    let c = digit (n % 10) in
    let more = show_digits fuel (n / 10) (String.◌∷◌ c rest) in
    if ltb n 10 then String.◌∷◌ c rest else more

unfoldable pub show_ℕ : ℕ → String
unfolding show_digits digit
show_ℕ n = show_digits 20 n String.[]

unfoldable pub show_ℤ : ℤ → String
unfolding show_ℕ
show_ℤ (pos n) = show_ℕ n
show_ℤ (negsuc n) = String.◌∷◌ "-" (show_ℕ (suc n))

parse_i64_runs : parse_i64 "-42" ≡ some (negsuc 41)
unfolding parse_i64
parse_i64_runs = refl

show_runs : show_ℤ (negsuc 41) ≡ "-42"
unfolding show_ℤ
show_runs = refl

trim_runs : trim "  a b " ≡ "a b"
unfolding trim
trim_runs = refl

-- `u8::to_ascii_lowercase`, by the number of the character, and `eq_ignore_ascii_case`.
abbrev pub ascii_lowercase : ℕ → ℕ
ascii_lowercase c = if leb 65 c && leb c 90 then c + 32 else c

unfoldable pub eq_ignore_ascii_case : String → String → Bool
eq_ignore_ascii_case String.[] String.[] = true
eq_ignore_ascii_case String.[] (String.◌∷◌ d t) = false
eq_ignore_ascii_case (String.◌∷◌ c s) String.[] = false
eq_ignore_ascii_case (String.◌∷◌ c s) (String.◌∷◌ d t) =
    ascii_lowercase (code c) == ascii_lowercase (code d) && eq_ignore_ascii_case s t
