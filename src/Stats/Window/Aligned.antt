-- ===== src/Stats/Window/Aligned.antt =====
-- The buckets of a window by the calendar (crates/stats/src/window.rs).
use bestiario.Prelude.{
  ℕ, suc, ◌*◌, ◌==◌, ◌≤◌, ◌<◌, some, ◌≡◌, refl, sym, ◌∙◌, arith, subst, Bool-cases, inl, inr,
  and_then-some,
}
use bestiario.Prelude.Int.{ℤ, pos, pos_part, ◌+ℤ◌, ◌-ℤ◌, ◌<ℤ◌, ◌≤ℤ◌}
use bestiario.Stats.Window.{
  Window, DateTime, Chrono, Period, day, week, month, year, next, next_month, first_of, walk,
  opening, IsMoment, Buckets,
}
use bestiario.Stats.Window.Tiling.{IsTiling, IsBucket, opened-Tiles}
use bestiario.Prelude.Lists.{All}
use bestiario.Stats.Window.Calendar.{
  IsCalendar, month_end, IsMidnight, IsMonday, weekday_of, later, not_before, next_day-IsMidnight,
  next_week-IsMonday, reached-IsMonday,
}

module _ (chrono : Chrono) (calendar : IsCalendar chrono) where
  -- Where a bucket of a period may open, and where it ends.
  abbrev pub Opens : Period → DateTime → Type 0
  Opens day at = IsMoment chrono at × IsMidnight at.timestamp
  Opens week at = IsMoment chrono at × IsMonday at.timestamp
  Opens month at = IsMoment chrono at × (at.timestamp ≡ calendar.first at.year at.month)
  Opens year at = IsMoment chrono at × (at.timestamp ≡ calendar.first at.year 1)

  abbrev pub period_end : Period → DateTime → ℤ
  period_end day at = at.timestamp +ℤ pos 86400
  period_end week at = at.timestamp +ℤ pos 604800
  period_end month at = month_end calendar.first at
  period_end year at = calendar.first (at.year +ℤ pos 1) 1

  -- A date opens its month, and that of January its year.
  dated-Opens :
      (y : ℤ) (m : ℕ) (date : DateTime)
      → chrono.with_ymd y m 1 ≡ some date
      → Opens month date × (date.timestamp ≡ calendar.first y m)
  dated-Opens y m date h =
      let (known, q, same_year, same_month) = calendar.dated y m date h in
      ((known, rw (same_year, same_month) q), q)

  dated_year-Opens :
      (y : ℤ) (date : DateTime)
      → chrono.with_ymd y 1 1 ≡ some date
      → Opens year date × (date.timestamp ≡ calendar.first y 1)
  dated_year-Opens y date h =
      let (known, q, same_year, _) = calendar.dated y 1 date h in ((known, rw same_year q), q)

  Stepped : Period → DateTime → DateTime → Type 0
  Stepped period at following =
      Opens period following
      × (at.timestamp <ℤ following.timestamp)
      × (following.timestamp ≡ period_end period at)

  -- A step of a period leads from where a bucket opens to its end, where the next one opens.
  next-Stepped :
      (period : Period) (at following : DateTime)
      → Opens period at
      → next chrono period at ≡ some following
      → Stepped period at following
  unfolding next next_month Stepped
  next-Stepped day at following (named, midnight) h =
      let (known, q) = calendar.added 1 at following named h in
      (
        (known, subst IsMidnight (sym q) (next_day-IsMidnight at.timestamp midnight)),
        subst (λ t. at.timestamp <ℤ t) (sym q) (later at.timestamp 86400 (omega arith)),
        q,
      )
  next-Stepped week at following (named, monday) h =
      let (known, q) = calendar.added 7 at following named h in
      (
        (known, subst IsMonday (sym q) (next_week-IsMonday at.timestamp monday)),
        subst (λ t. at.timestamp <ℤ t) (sym q) (later at.timestamp 604800 (omega arith)),
        q,
      )
  next-Stepped month at following (named, _) h =
      let (_, below) = calendar.in_month at named in
      elim (Bool-cases (at.month == 12)) [
        | inl e ↦
            let (opens, q) = dated-Opens (at.year +ℤ pos 1) 1 following (rw e at h) in
            let end : month_end calendar.first at ≡ calendar.first (at.year +ℤ pos 1) 1 =
              rw e refl in
            (opens, subst (λ t. at.timestamp <ℤ t) (end ∙ sym q) below, q ∙ sym end)
        | inr e ↦
            let (opens, q) = dated-Opens at.year (suc at.month) following (rw e at h) in
            let end : month_end calendar.first at ≡ calendar.first at.year (suc at.month) =
              rw e refl in
            (opens, subst (λ t. at.timestamp <ℤ t) (end ∙ sym q) below, q ∙ sym end)
      ]
  next-Stepped year at following (named, _) h =
      let (opens, q) = dated_year-Opens (at.year +ℤ pos 1) following h in
      let (_, below) = calendar.in_year at named in
      (opens, subst (λ t. at.timestamp <ℤ t) (sym q) below, q)

  -- The bucket that holds a moment opens no later.
  opened :
      (period : Period) (start cursor : DateTime)
      → IsMoment chrono start
      → first_of chrono period start ≡ some cursor
      → Opens period cursor × (cursor.timestamp ≤ℤ start.timestamp)
  opened day start cursor named h =
      let (known, midnight, low, _) = calendar.midnights start cursor named h in
      ((known, midnight), low)
  opened week start cursor named h =
      let (back, s, m) = and_then-some (chrono.sub_days start.weekday start) h in
      let (known, q) = calendar.subtracted start.weekday start back named s in
      let (at_midnight, midnight, low, high) = calendar.midnights back cursor known m in
      let before : back.timestamp ≤ℤ start.timestamp =
        subst (λ t. back.timestamp ≤ℤ t) q (not_before back.timestamp (start.weekday * 86400)) in
      let days : back.timestamp +ℤ pos (weekday_of start.timestamp * 86400) ≡ start.timestamp =
        subst (λ w. back.timestamp +ℤ pos (w * 86400) ≡ start.timestamp)
          (calendar.in_week start named) q in
      (
        (
          at_midnight,
          reached-IsMonday start.timestamp back.timestamp cursor.timestamp days midnight low high,
        ),
        omega (arith, low, before),
      )
  opened month start cursor named h =
      let (opens, q) = dated-Opens start.year start.month cursor h in
      let (low, _) = calendar.in_month start named in
      (opens, subst (λ t. t ≤ℤ start.timestamp) (sym q) low)
  opened year start cursor named h =
      let (opens, q) = dated_year-Opens start.year cursor h in
      let (low, _) = calendar.in_year start named in
      (opens, subst (λ t. t ≤ℤ start.timestamp) (sym q) low)

  opening-low :
      (window : Window) (period : Period) (cursor : DateTime)
      → opening chrono window period ≡ some cursor
      → Opens period cursor × (cursor.timestamp ≤ℤ window.from)
  unfolding opening
  opening-low window period cursor h =
      let (start, s, rest) = and_then-some (chrono.from_timestamp window.from) h in
      let q = calendar.named window.from start s in
      let named : IsMoment chrono start =
        subst (λ t. chrono.from_timestamp t ≡ some start) (sym q) s in
      let (opens, low) = opened period start cursor named rest in
      (opens, subst (λ t. cursor.timestamp ≤ℤ t) q low)

  -- The buckets of a window that is not empty tile it, whatever the period: the first begins where
  -- the window does, each next one where the one before ends, the last ends where the window does,
  -- and none is empty. Each is what the window has of one day, ISO week, month or year, from its
  -- opening to its end, under the text of that opening. It is so for a chrono that keeps what
  -- `IsCalendar` says of the moments it names, where it names the opening of the first bucket and
  -- the step from each moment before the end of the window, for fuel above the seconds from that
  -- opening to the end, and a limit of at least the seconds of the window.
  pub walk-tiles :
      (window : Window) (period : Period) (fuel limit : ℕ) (cursor : DateTime)
      → window.from <ℤ window.until
      → opening chrono window period ≡ some cursor
      → ((at : DateTime)
          → IsMoment chrono at
          → at.timestamp <ℤ window.until
          → (following : DateTime) × (next chrono period at ≡ some following))
      → pos_part (window.until -ℤ cursor.timestamp) < fuel
      → pos_part (window.until -ℤ window.from) ≤ limit
      → (buckets : Buckets) × (walk chrono window period fuel limit ≡ some (some buckets))
        × IsTiling window.from buckets window.until
        × All (IsBucket chrono window period (Opens period) (period_end period)) buckets
  unfolding Stepped
  walk-tiles window period fuel limit cursor filled opens goes_on short enough =
      let (first_opens, low) = opening-low window period cursor opens in
      opened-Tiles chrono window period (Opens period) (period_end period) filled
        (λ at here before.
          let (following, q) = goes_on at (moment period at here) before in
          let (there, forward, end) = next-Stepped period at following here q in
          (following, q, there, forward, end))
        fuel limit cursor opens first_opens low short enough
    where
      moment : (period : Period) (at : DateTime) → Opens period at → IsMoment chrono at
      moment day at (known, _) = known
      moment week at (known, _) = known
      moment month at (known, _) = known
      moment year at (known, _) = known
