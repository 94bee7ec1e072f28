-- ===== src/Stats/Window.antt =====
-- Windows, and the calendar buckets of a window (crates/stats/src/window.rs).
pub mod Tiling
pub mod Calendar
pub mod Aligned
use bestiario.Prelude.{
  ℕ, zero, suc, ◌-◌, ◌==◌, Bool, true, false, ◌&&◌, Option, none, some, String, List, [], ◌∷◌,
  if◌then◌else◌, and_then, ◌≡◌,
}
use bestiario.Prelude.Int.{ℤ, pos, ◌+ℤ◌, ◌-ℤ◌, ltb_ℤ, leb_ℤ, min_ℤ, max_ℤ, wrap_i64}

pub record Window : Type 0 where
  pub from : ℤ
  pub until : ℤ

unfoldable pub contains : Window → ℤ → Bool
contains window timestamp = leb_ℤ window.from timestamp && ltb_ℤ timestamp window.until

unfoldable pub previous : Window → Window
previous window = record {
  from = wrap_i64 (window.from -ℤ wrap_i64 (window.until -ℤ window.from));
  until = window.from;
}

-- What the program reads of a `DateTime<Utc>`; days of the week count from Monday, at 0.
pub record DateTime : Type 0 where
  pub timestamp : ℤ
  pub year : ℤ
  pub month : ℕ
  pub weekday : ℕ
  pub hour : ℕ

-- chrono: the moments that it can name, the midnight of a day, its steps by days and months, the first
-- second of a date, and its texts.
pub record Chrono : Type 0 where
  pub from_timestamp : ℤ → Option DateTime
  pub midnight : DateTime → Option DateTime
  pub sub_days : ℕ → DateTime → Option DateTime
  pub add_days : ℕ → DateTime → Option DateTime
  pub sub_months : ℕ → DateTime → Option DateTime
  pub with_ymd : ℤ → ℕ → ℕ → Option DateTime
  pub format : String → DateTime → String

-- A moment that chrono names: its fields are those of its second.
abbrev pub IsMoment : Chrono → DateTime → Type 0
IsMoment chrono at = chrono.from_timestamp at.timestamp ≡ some at

pub data Period : Type 0 where
  day week month year : Period

-- The `match` on the period: where the bucket that holds a moment opens.
abbrev pub first_of : Chrono → Period → DateTime → Option DateTime
first_of chrono day start = chrono.midnight start
first_of chrono week start = and_then (chrono.sub_days start.weekday start) chrono.midnight
first_of chrono month start = chrono.with_ymd start.year start.month 1
first_of chrono year start = chrono.with_ymd start.year 1 1

unfoldable pub opening : Chrono → Window → Period → Option DateTime
opening chrono window period = and_then (chrono.from_timestamp window.from) (first_of chrono period)

unfoldable pub next_month : Chrono → DateTime → Option DateTime
next_month chrono at =
    if at.month == 12
    then chrono.with_ymd (at.year +ℤ pos 1) 1 1
    else chrono.with_ymd at.year (suc at.month) 1

-- The step of each period, and the texts of its buckets.
unfoldable pub next : Chrono → Period → DateTime → Option DateTime
unfolding next_month
next chrono day at = chrono.add_days 1 at
next chrono week at = chrono.add_days 7 at
next chrono month at = next_month chrono at
next chrono year at = chrono.with_ymd (at.year +ℤ pos 1) 1 1

abbrev pub format_of : Period → String
format_of day = "%Y-%m-%d"
format_of week = "%G-W%V"
format_of month = "%Y-%m"
format_of year = "%Y"

-- `clipped`
unfoldable pub clipped : Window → DateTime → DateTime → Window
clipped window cursor following = record {
  from = max_ℤ cursor.timestamp window.from;
  until = min_ℤ following.timestamp window.until;
}

abbrev pub Buckets : Type 0
Buckets = List (String × Window)

-- A bucket in front of what follows; `room` is what the limit leaves.
abbrev pub push : String → Window → ℕ → (ℕ → Option (Option Buckets)) → Option (Option Buckets)
push key bucket room rest = elim (ltb_ℤ bucket.from bucket.until) [
  | false ↦ rest room
  | true ↦ elim room [
    | zero ↦ some none
    | suc left ↦
        and_then (rest left)
          (λ result. some (and_then result (λ buckets. some ((key, bucket) ∷ buckets))))
  ]
]

-- The loop, on fuel: nothing where the fuel does not reach its end, else what `walk` returns.
unfoldable pub walk_from : Chrono → Window → Period → ℕ → ℕ → DateTime → Option (Option Buckets)
unfolding next clipped
walk_from chrono window period zero room cursor = none
walk_from chrono window period (suc fuel) room cursor = elim (ltb_ℤ cursor.timestamp window.until) [
  | false ↦ some (some [])
  | true ↦ elim (next chrono period cursor) [
    | none ↦ some (some [])
    | some following ↦
        push (chrono.format (format_of period) cursor) (clipped window cursor following) room
          (λ left. walk_from chrono window period fuel left following)
  ]
]

unfoldable pub walk : Chrono → Window → Period → ℕ → ℕ → Option (Option Buckets)
unfolding opening walk_from
walk chrono window period fuel limit = elim (opening chrono window period) [
  | none ↦ some (some [])
  | some cursor ↦ walk_from chrono window period fuel limit cursor
]

-- `shifted`, `shifted_months` and `previous_month`: both ends, moved back by chrono.
abbrev moved : Chrono → (DateTime → Option DateTime) → Window → Option Window
moved chrono back window = and_then (and_then (chrono.from_timestamp window.from) back) (λ from.
    and_then (and_then (chrono.from_timestamp window.until) back)
      (λ until. some (record { from = from.timestamp; until = until.timestamp })))

unfoldable pub previous_month : Chrono → Window → Option Window
previous_month chrono window = moved chrono (chrono.sub_months 1) window

unfoldable pub preceding : Chrono → Window → Period → Option Window
unfolding previous_month
preceding chrono window day = moved chrono (chrono.sub_days 1) window
preceding chrono window week = moved chrono (chrono.sub_days 7) window
preceding chrono window month = previous_month chrono window
preceding chrono window year = moved chrono (chrono.sub_months 12) window
