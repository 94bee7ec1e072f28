-- ===== src/Stats/Window/Calendar.antt =====
-- What chrono's calendar promises, and its days and weeks (crates/stats/src/window.rs).
use bestiario.Prelude.{ℕ, suc, ◌*◌, ◌/◌, ◌==◌, ◌<◌, some, ◌≡◌, arith, if◌then◌else◌}
use bestiario.Prelude.Int.{ℤ, pos, negsuc, pos_part, ◌+ℤ◌, ◌<ℤ◌, ◌≤ℤ◌, +ℤ_parts, rem_euclid}
use bestiario.Stats.Window.{DateTime, Chrono, IsMoment}

-- The first second of the month after that of a moment, by the first second of each month.
abbrev pub month_end : (ℤ → ℕ → ℤ) → DateTime → ℤ
month_end first at =
    if at.month == 12 then first (at.year +ℤ pos 1) 1 else first at.year (suc at.month)

-- Days begin at multiples of 86400 seconds, and the weeks of ISO 8601 at the Mondays among them.
abbrev pub IsMidnight : ℤ → Type 0
IsMidnight t = rem_euclid t 86400 ≡ pos 0

abbrev pub IsMonday : ℤ → Type 0
IsMonday t = rem_euclid (t +ℤ pos 259200) 604800 ≡ pos 0

abbrev pub weekday_of : ℤ → ℕ
weekday_of t = pos_part (rem_euclid (t +ℤ pos 259200) 604800) / 86400

-- What chrono documents of the moments that it names: `from_timestamp` names a second, a moment lies
-- within its month and within its year, a date is its first second, steps by days are of 86400
-- seconds, and the midnight of a moment is the last one that is not after it.
pub record IsCalendar (chrono : Chrono) : Type 0 where
  pub first : ℤ → ℕ → ℤ
  pub named : (t : ℤ) (at : DateTime) → chrono.from_timestamp t ≡ some at → at.timestamp ≡ t
  pub in_month :
      (at : DateTime)
      → IsMoment chrono at
      → (first at.year at.month ≤ℤ at.timestamp) × (at.timestamp <ℤ month_end first at)
  pub in_year :
      (at : DateTime)
      → IsMoment chrono at
      → (first at.year 1 ≤ℤ at.timestamp) × (at.timestamp <ℤ first (at.year +ℤ pos 1) 1)
  pub in_week : (at : DateTime) → IsMoment chrono at → at.weekday ≡ weekday_of at.timestamp
  pub dated :
      (y : ℤ) (m : ℕ) (date : DateTime)
      → chrono.with_ymd y m 1 ≡ some date
      → IsMoment chrono date × (date.timestamp ≡ first y m) × (date.year ≡ y) × (date.month ≡ m)
  pub added :
      (n : ℕ) (at later : DateTime)
      → IsMoment chrono at
      → chrono.add_days n at ≡ some later
      → IsMoment chrono later × (later.timestamp ≡ at.timestamp +ℤ pos (n * 86400))
  pub subtracted :
      (n : ℕ) (at earlier : DateTime)
      → IsMoment chrono at
      → chrono.sub_days n at ≡ some earlier
      → IsMoment chrono earlier × (earlier.timestamp +ℤ pos (n * 86400) ≡ at.timestamp)
  pub midnights :
      (at midnight : DateTime)
      → IsMoment chrono at
      → chrono.midnight at ≡ some midnight
      → IsMoment chrono midnight
        × IsMidnight midnight.timestamp
        × (midnight.timestamp ≤ℤ at.timestamp)
        × (at.timestamp <ℤ (midnight.timestamp +ℤ pos 86400))

pub later : (t : ℤ) (seconds : ℕ) → 0 < seconds → t <ℤ (t +ℤ pos seconds)
later t seconds h = omega (arith, +ℤ_parts t (pos seconds))

pub not_before : (t : ℤ) (seconds : ℕ) → t ≤ℤ (t +ℤ pos seconds)
not_before t seconds = omega (arith, +ℤ_parts t (pos seconds))

pub next_day-IsMidnight : (t : ℤ) → IsMidnight t → IsMidnight (t +ℤ pos 86400)
unfolding rem_euclid ◌+ℤ◌
next_day-IsMidnight (pos n) h = ground arith
next_day-IsMidnight (negsuc n) h = ground arith

pub next_week-IsMonday : (t : ℤ) → IsMonday t → IsMonday (t +ℤ pos 604800)
unfolding rem_euclid ◌+ℤ◌
next_week-IsMonday (pos n) h = ground arith
next_week-IsMonday (negsuc n) h = ground arith

-- The midnight of the day that lies as many days before a moment as its weekday says is a Monday's.
pub reached-IsMonday :
    (t back m : ℤ)
    → back +ℤ pos (weekday_of t * 86400) ≡ t
    → IsMidnight m
    → m ≤ℤ back
    → back <ℤ (m +ℤ pos 86400)
    → IsMonday m
unfolding rem_euclid ◌+ℤ◌
reached-IsMonday (pos t) back (pos m) h midnight low high = ground arith
reached-IsMonday (pos t) back (negsuc m) h midnight low high = ground arith
reached-IsMonday (negsuc t) back (pos m) h midnight low high = ground arith
reached-IsMonday (negsuc t) back (negsuc m) h midnight low high = ground arith
