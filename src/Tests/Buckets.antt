-- ===== src/Tests/Buckets.antt =====
-- The months of a window in the autumn of 2023, by a calendar of three months.
use bestiario.Prelude.{
  ℕ, ◌*◌, ◌+◌, ◌/◌, ◌%◌, ◌==◌, Bool, true, ◌&&◌, ◌||◌, ◌≡◌, refl, sym, ap, ◌∙◌, Option, some, none,
  arith, subst, if◌then◌else◌, Bool-cases, inl, inr, some-inj,
}
use bestiario.Prelude.Int.{
  ℤ, pos, negsuc, pos_part, ◌+ℤ◌, ◌-ℤ◌, rem_euclid, ◌<ℤ◌, ◌≤ℤ◌, ltb_ℤ, leb_ℤ, eqb_ℤ, +ℤ_parts,
  -ℤ_parts, eq_of_parts,
}
use bestiario.Stats.Window.{
  Window, DateTime, Chrono, month, next, next_month, walk, Buckets, opening, IsMoment,
}
use bestiario.Stats.Window.Tiling.{IsTiling}
use bestiario.Stats.Window.Tiling.{IsBucket}
use bestiario.Prelude.Lists.{All}
use bestiario.Stats.Window.Calendar.{IsCalendar, IsMidnight, month_end, weekday_of}
use bestiario.Stats.Window.Aligned.{Opens, period_end, walk-tiles}

-- From the first of November 2023 to the last of January 2024.
abbrev is_known : ℤ → Bool
is_known t = leb_ℤ (pos 1698796800) t && ltb_ℤ t (pos 1706745600)

abbrev at_second : ℤ → DateTime
at_second t = record {
  timestamp = t;
  year = if ltb_ℤ t (pos 1704067200) then pos 2023 else pos 2024;
  month = if ltb_ℤ t (pos 1701388800) then 11 else if ltb_ℤ t (pos 1704067200) then 12 else 1;
  weekday = (pos_part t / 86400 + 3) % 7;
  hour = pos_part t / 3600 % 24;
}

abbrev from_second : ℤ → Option DateTime
from_second t = if is_known t then some (at_second t) else none

abbrev first_second : ℤ → ℕ → ℤ
first_second y m =
    if eqb_ℤ y (pos 2023)
    then (if m == 11 then pos 1698796800 else if m == 12 then pos 1701388800 else pos 1672531200)
    else if eqb_ℤ y (pos 2024)
    then (if m == 2 then pos 1706745600 else pos 1704067200)
    else pos 1735689600

abbrev is_dated : ℤ → ℕ → Bool
is_dated y m = eqb_ℤ y (pos 2023) && (m == 11 || m == 12) || eqb_ℤ y (pos 2024) && m == 1

abbrev autumn : Chrono
autumn = record {
  from_timestamp = from_second;
  midnight = λ at. from_second (at.timestamp -ℤ rem_euclid at.timestamp 86400);
  sub_days = λ n at. from_second (at.timestamp -ℤ pos (n * 86400));
  add_days = λ n at. from_second (at.timestamp +ℤ pos (n * 86400));
  sub_months = λ n at. none;
  with_ymd = λ y m d. if is_dated y m then from_second (first_second y m) else none;
  format = λ f at. "month";
}

from_second-some :
    (t : ℤ) (at : DateTime) → from_second t ≡ some at → (is_known t ≡ true) × (at_second t ≡ at)
from_second-some t at h = elim (Bool-cases (is_known t)) [
  | inl e ↦ (e, some-inj (rw e at h))
  | inr e ↦ absurd (cc (rw e at h))
]

from_second-named :
    (t : ℤ) (at : DateTime)
    → from_second t ≡ some at
    → (from_second at.timestamp ≡ some at) × (at.timestamp ≡ t)
from_second-named t at h =
    let (_, q) = from_second-some t at h in
    let same : at.timestamp ≡ t = ap (λ a. a.timestamp) (sym q) in
    (subst (λ s. from_second s ≡ some at) (sym same) h, same)

known-month :
    (t : ℤ)
    → is_known t ≡ true
    → (first_second (at_second t).year (at_second t).month ≤ℤ t)
      × (t <ℤ month_end first_second (at_second t))
unfolding ◌+ℤ◌
known-month t h = (ground arith, ground arith)

known-year :
    (t : ℤ)
    → is_known t ≡ true
    → (first_second (at_second t).year 1 ≤ℤ t) × (t <ℤ first_second ((at_second t).year +ℤ pos 1) 1)
unfolding ◌+ℤ◌
known-year t h = (ground arith, ground arith)

back-forth : (t d : ℤ) → (t -ℤ d) +ℤ d ≡ t
back-forth t d = eq_of_parts ((t -ℤ d) +ℤ d) t (omega (arith, +ℤ_parts (t -ℤ d) d, -ℤ_parts t d))

abbrev midnight_of : ℤ → ℤ
midnight_of t = t -ℤ rem_euclid t 86400

midnight_of-last :
    (t : ℤ)
    → IsMidnight (midnight_of t) × (midnight_of t ≤ℤ t) × (t <ℤ (midnight_of t +ℤ pos 86400))
unfolding rem_euclid ◌+ℤ◌ ◌-ℤ◌
midnight_of-last (pos n) = (ground arith, ground arith, ground arith)
midnight_of-last (negsuc n) = (ground arith, ground arith, ground arith)

known-week : (t : ℤ) → is_known t ≡ true → (at_second t).weekday ≡ weekday_of t
unfolding rem_euclid ◌+ℤ◌
known-week (pos n) h = ground arith
known-week (negsuc n) h = ground arith

known-date :
    (y : ℤ) (m : ℕ)
    → is_dated y m ≡ true
    → ((at_second (first_second y m)).year ≡ y) × ((at_second (first_second y m)).month ≡ m)
known-date (pos y) m h = (ground arith, ground arith)
known-date (negsuc y) m h = (ground arith, ground arith)

autumn-IsCalendar : IsCalendar autumn
autumn-IsCalendar = record {
  first = first_second;
  named = λ t at h. (from_second-named t at h).1;
  in_month = λ at h.
      let (known, q) = from_second-some at.timestamp at h in
      subst
        (λ a.
          (first_second a.year a.month ≤ℤ at.timestamp)
          × (at.timestamp <ℤ month_end first_second a))
        q (known-month at.timestamp known);
  in_year = λ at h.
      let (known, q) = from_second-some at.timestamp at h in
      subst
        (λ a.
          (first_second a.year 1 ≤ℤ at.timestamp)
          × (at.timestamp <ℤ first_second (a.year +ℤ pos 1) 1))
        q (known-year at.timestamp known);
  in_week = λ at h.
      let (known, q) = from_second-some at.timestamp at h in
      subst (λ a. a.weekday ≡ weekday_of at.timestamp) q (known-week at.timestamp known);
  dated = λ y m date h. dated y m date h;
  added = λ n at later named h. from_second-named (at.timestamp +ℤ pos (n * 86400)) later h;
  subtracted = λ n at earlier named h.
      let (known, q) = from_second-named (at.timestamp -ℤ pos (n * 86400)) earlier h in
      (known, ap (λ t. t +ℤ pos (n * 86400)) q ∙ back-forth at.timestamp (pos (n * 86400)));
  midnights = λ at midnight named h.
      let (known, q) = from_second-named (midnight_of at.timestamp) midnight h in
      subst
        (λ t.
          IsMoment autumn midnight
          × IsMidnight t
          × (t ≤ℤ at.timestamp)
          × (at.timestamp <ℤ (t +ℤ pos 86400)))
        (sym q)
        (
          known,
          (midnight_of-last at.timestamp).0,
          (midnight_of-last at.timestamp).1,
          (midnight_of-last at.timestamp).2,
        );
}
  where
    dated :
        (y : ℤ) (m : ℕ) (date : DateTime)
        → autumn.with_ymd y m 1 ≡ some date
        → IsMoment autumn date
          × (date.timestamp ≡ first_second y m)
          × (date.year ≡ y)
          × (date.month ≡ m)
    dated y m date h = elim (Bool-cases (is_dated y m)) [
      | inl e ↦
          let found : from_second (first_second y m) ≡ some date = rw e at h in
          let (known, q) = from_second-named (first_second y m) date found in
          let (_, same) = from_second-some (first_second y m) date found in
          let (same_year, same_month) = known-date y m e in
          (
            known,
            q,
            subst (λ a. a.year ≡ y) same same_year,
            subst (λ a. a.month ≡ m) same same_month,
          )
      | inr e ↦ absurd (cc (rw e at h))
    ]

-- From the 14th of November to the 20th of December.
abbrev weeks : Window
weeks = record { from = pos 1700000000; until = pos 1703030400 }

months-step :
    (t : ℤ)
    → is_known t ≡ true
    → t <ℤ weeks.until
    → (following : DateTime) × (next autumn month (at_second t) ≡ some following)
unfolding next next_month ◌+ℤ◌
months-step t known before = elim (Bool-cases (ltb_ℤ t (pos 1701388800))) [
  | inl e ↦
      let f : ltb_ℤ t (pos 1704067200) ≡ true = ground arith in
      (at_second (pos 1701388800), rw (e, f) refl)
  | inr e ↦
      let f : ltb_ℤ t (pos 1704067200) ≡ true = ground arith in
      (at_second (pos 1704067200), rw (e, f) refl)
]

months-go-on :
    (at : DateTime)
    → IsMoment autumn at
    → at.timestamp <ℤ weeks.until
    → (following : DateTime) × (next autumn month at ≡ some following)
months-go-on at named before =
    let (known, q) = from_second-some at.timestamp at named in
    let (following, n) = months-step at.timestamp known before in
    (following, ap (next autumn month) (sym q) ∙ n)

walk-tiles_example :
    (buckets : Buckets) × (walk autumn weeks month 5000000 5000000 ≡ some (some buckets))
    × IsTiling (pos 1700000000) buckets (pos 1703030400)
    × All
        (IsBucket autumn weeks month
          (Opens autumn autumn-IsCalendar month)
          (period_end autumn autumn-IsCalendar month))
        buckets
unfolding opening ◌-ℤ◌
walk-tiles_example =
    walk-tiles autumn autumn-IsCalendar weeks month 5000000 5000000 (at_second (pos 1698796800))
      (omega arith) refl months-go-on (omega arith) (omega arith)
