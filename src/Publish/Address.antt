-- ===== src/Publish/Address.antt =====
-- The `d` tag of a document (crates/stats/src/publish/address.rs): its parts, its text, and its parse.
pub mod Parse
pub mod Digits
pub mod Segments
pub mod Valid
pub mod Words
pub mod RoundTrip
pub mod Parts
pub mod Exact
use bestiario.Prelude.{
  ℕ, zero, suc, ◌+◌, ◌/◌, ◌%◌, Bool, true, false, ◌&&◌, ◌||◌, Option, none, some, String, List, [],
  ◌∷◌, if◌then◌else◌, ◌==◌, leb, str_eq, and_then, map_or,
}
use bestiario.Prelude.Int.{ℤ, pos, negsuc}
use bestiario.Prelude.Lists.{length}
use bestiario.Prelude.Map.{contains}
use bestiario.Prelude.Join.{◌+++◌}
use bestiario.Prelude.Result.{Result, ok, err, ◌>>=◌, ok_or}
use bestiario.Prelude.Text.{is_empty, digit, parse_digits}
use Prim.Native.Char.{code}
use Prim.Native.String

pub data Report : Type 0 where
  summary orders volume market disputes dev_fees instances compare : Report

pub data Window : Type 0 where
  hours24 days7 days30 days90 all : Window

pub data Resolution : Type 0 where
  daily weekly monthly : Resolution

-- `Self::ALL`, and the texts.
abbrev pub all_reports : List Report
all_reports = summary ∷ orders ∷ volume ∷ market ∷ disputes ∷ dev_fees ∷ instances ∷ compare ∷ []

abbrev pub all_windows : List Window
all_windows = hours24 ∷ days7 ∷ days30 ∷ days90 ∷ all ∷ []

abbrev pub all_resolutions : List Resolution
all_resolutions = daily ∷ weekly ∷ monthly ∷ []

abbrev pub report_str : Report → String
report_str summary = "summary"
report_str orders = "orders"
report_str volume = "volume"
report_str market = "market"
report_str disputes = "disputes"
report_str dev_fees = "dev-fees"
report_str instances = "instances"
report_str compare = "compare"

abbrev pub window_str : Window → String
window_str hours24 = "24h"
window_str days7 = "7d"
window_str days30 = "30d"
window_str days90 = "90d"
window_str all = "all"

abbrev pub resolution_str : Resolution → String
resolution_str daily = "daily"
resolution_str weekly = "weekly"
resolution_str monthly = "monthly"

-- `ALL.into_iter().find(|item| item.as_str() == text)`
unfoldable pub find_by : {A : Type 0} → (A → String) → List A → String → Option A
find_by as_str [] text = none
find_by as_str (item ∷ items) text =
    let rest = find_by as_str items text in if str_eq (as_str item) text then some item else rest

unfoldable pub parse_report : String → Option Report
unfolding find_by
parse_report text = find_by report_str all_reports text

unfoldable pub parse_window : String → Option Window
unfolding find_by
parse_window text = find_by window_str all_windows text

unfoldable pub parse_resolution : String → Option Resolution
unfolding find_by
parse_resolution text = find_by resolution_str all_resolutions text

-- `Year::new` and `Month::new`: what they let through is a plain number here.
unfoldable pub new_year : ℤ → Option ℕ
new_year (pos year) = if leb year 9999 then some year else none
new_year (negsuc n) = none

unfoldable pub new_month : ℕ → Option ℕ
new_month month = if leb 1 month && leb month 12 then some month else none

-- `{:04}` and `{:02}` of a number that the width holds.
unfoldable pub padded : ℕ → ℕ → String → String
padded zero n rest = rest
padded (suc width) n rest = padded width (n / 10) (String.◌∷◌ (digit (n % 10)) rest)

abbrev pub year_text : ℕ → String
year_text year = padded 4 year String.[]

abbrev pub month_text : ℕ → String
month_text month = padded 2 month String.[]

pub data Bucket : Type 0 where
  of_month : ℕ → ℕ → Bucket
  of_year : ℕ → Bucket

unfoldable pub fits : Bucket → Resolution → Bool
fits (of_month year month) daily = true
fits (of_month year month) weekly = true
fits (of_month year month) monthly = false
fits (of_year year) daily = false
fits (of_year year) weekly = false
fits (of_year year) monthly = true

pub record Partition : Type 0 where
  pub resolution : Resolution
  pub bucket : Bucket

unfoldable pub new_partition : Resolution → Bucket → Option Partition
unfolding fits
new_partition resolution bucket =
    if fits bucket resolution
    then some (record { resolution = resolution; bucket = bucket })
    else none

-- Every byte of a text that passes is one character, so the length is counted in characters.
abbrev pub char_count : String → ℕ
char_count String.[] = 0
char_count (String.◌∷◌ c s) = suc (char_count s)

abbrev pub is_digit : ℕ → Bool
is_digit c = leb 48 c && leb c 57

unfoldable pub all_chars : (ℕ → Bool) → String → Bool
all_chars p String.[] = true
all_chars p (String.◌∷◌ c s) = p (code c) && all_chars p s

unfoldable pub fixed_digits : String → ℕ → Option ℕ
unfolding all_chars parse_digits
fixed_digits text digits =
    if char_count text == digits && all_chars is_digit text then parse_digits 0 text else none

-- `fn year`
unfoldable pub parse_year : String → Option ℕ
unfolding fixed_digits new_year
parse_year text = and_then (fixed_digits text 4) (λ year. new_year (pos year))

-- `str::split_once`, for one character.
unfoldable pub split_once : ℕ → String → Option (String × String)
split_once c String.[] = none
split_once c (String.◌∷◌ d s) =
    let rest = split_once c s in
    if code d == c
    then some (String.[], s)
    else and_then rest (λ (before, after). some (String.◌∷◌ d before, after))

abbrev pub bucket_of : Option (String × String) → String → Option Bucket
bucket_of none text = and_then (parse_year text) (λ year. some (of_year year))
bucket_of (some (years, months)) text = and_then (parse_year years) (λ year.
    and_then (fixed_digits months 2)
      (λ number. and_then (new_month number) (λ month. some (of_month year month))))

unfoldable pub parse_bucket : String → Option Bucket
unfolding split_once fixed_digits new_month parse_year
parse_bucket text = bucket_of (split_once 45 text) text

unfoldable pub bucket_text : Bucket → String
unfolding padded
bucket_text (of_month year month) = year_text year +++ "-" +++ month_text month
bucket_text (of_year year) = year_text year
