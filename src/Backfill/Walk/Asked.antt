-- ===== src/Backfill/Walk/Asked.antt =====
-- What a turn of a walk asked for, and what a filter's bound says (src/commands/backfill.rs).
use bestiario.Prelude.{
  ◌≡◌, refl, sym, ap, ◌∙◌, ℕ, some, List, [], ◌∷◌, arith, subst, inl, inr, and_then-some, some-inj,
  true, Bool, Bool-cases, ◌&&◌,
}
use bestiario.Prelude.Int.{
  ℤ, pos, pos_part, ◌-ℤ◌, ◌<ℤ◌, ltb_ℤ, i64_max, wrap_i64, wrap_i64-fits, -ℤ_parts,
}
use bestiario.Prelude.Lists.{In}
use bestiario.Ingest.Event.{Event}
use bestiario.Commands.Range.{Range, resolve}
use bestiario.Commands.Range.Bounds.{resolve-cases}
use bestiario.Commands.Filters.{Filter, for_kind, until_of}
use bestiario.Commands.Filters.Window.{admits, at_most, at_least}
use bestiario.Backfill.Walk.{Backfill, Request, page, filled, asked}

-- What a turn of the loop asked for, where it read a page.
pub record Asked (backfill : Backfill) (request : Request) (until : ℤ) (events : List Event)
    : Type 0 where
  pub above : backfill.range.from <ℤ until
  pub filter : Filter
  pub built :
      for_kind request.kind backfill.authors request.vouched
        (some (record { from = backfill.range.from; until = until }))
        (some backfill.window_limit)
      ≡ some filter
  pub answered : backfill.client.fetch_window request.relay filter ≡ some events
  pub one : Event
  pub has_one : In one events

filled-some :
    (read events : List Event)
    → filled read ≡ some events
    → (read ≡ events) × ((one : Event) × In one events)
filled-some [] events h = cc
filled-some (event ∷ read) events h =
    let q : event ∷ read ≡ events = some-inj h in (q, (event, subst (In event) q (inl refl)))

pub page-Asked :
    (backfill : Backfill) (request : Request) (until : ℤ) (events : List Event)
    → page backfill request until ≡ some events
    → Asked backfill request until events
unfolding page
page-Asked backfill request until events h = elim (Bool-cases (ltb_ℤ backfill.range.from until)) [
  | inl e ↦
      let (filter, a, f) =
        and_then-some
          (asked backfill request (resolve (some backfill.range.from) (some until) backfill.now))
          (rw e at h) in
      let (read, answered, g) =
        and_then-some (backfill.client.fetch_window request.relay filter) f in
      let (same, (one, i)) = filled-some read events g in
      record {
        above = ground arith;
        filter = filter;
        built = built filter a;
        answered = answered ∙ ap some same;
        one = one;
        has_one = i;
      }
  | inr e ↦ absurd (cc (rw e at h))
]
  where
    built :
        (filter : Filter)
        → asked backfill request (resolve (some backfill.range.from) (some until) backfill.now)
          ≡ some filter
        → for_kind request.kind backfill.authors request.vouched
            (some (record { from = backfill.range.from; until = until }))
            (some backfill.window_limit)
          ≡ some filter
    built filter a = elim (resolve-cases backfill.range.from until backfill.now) [
      | inl (error, r) ↦ absurd (cc (rw r at a))
      | inr r ↦ sym (ap (asked backfill request) r) ∙ a
    ]

-- What the bound of a filter says of a second that it admits.
upper :
    (until : ℤ) (t : ℕ)
    → pos 0 <ℤ until
    → until <ℤ i64_max
    → at_most (some (pos_part (until -ℤ pos 1))) t ≡ true
    → pos t <ℤ until
upper until t above below h = ground (arith, -ℤ_parts until (pos 1))

pub admits-below :
    (range : Range) (filter : Filter) (t : ℕ)
    → filter.until ≡ until_of range
    → pos 0 <ℤ range.until
    → range.until <ℤ i64_max
    → admits filter t ≡ true
    → pos t <ℤ range.until
unfolding until_of
admits-below range filter t q above below h =
    let bound : ltb_ℤ range.until i64_max ≡ true = ground arith in
    let fits : wrap_i64 (range.until -ℤ pos 1) ≡ range.until -ℤ pos 1 =
      wrap_i64-fits (range.until -ℤ pos 1) (
        ground (arith, -ℤ_parts range.until (pos 1)),
        ground (arith, -ℤ_parts range.until (pos 1)),
      ) in
    upper range.until t above below (
      subst (λ bound. at_most bound t ≡ true) (q ∙ exact bound fits)
        (right (at_least filter.since t) (at_most filter.until t) h))
  where
    right : (a b : Bool) → (a && b) ≡ true → b ≡ true
    right a b h = ground arith

    exact :
        ltb_ℤ range.until i64_max ≡ true
        → wrap_i64 (range.until -ℤ pos 1) ≡ range.until -ℤ pos 1
        → until_of range ≡ some (pos_part (range.until -ℤ pos 1))
    exact bound fits = rw (bound, fits) refl
