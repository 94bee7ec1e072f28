-- ===== src/Backfill/Walk/Complete.antt =====
-- What a walk reads of the events that a relay holds, and the range in which it does not end
-- (src/commands/backfill.rs).
use bestiario.Prelude.{
  ◌≡◌, refl, sym, ap, ◌∙◌, ℕ, zero, suc, ◌≤◌, ◌<◌, none, some, List, [], ◌∷◌, arith, subst,
  Option-cases, inl, inr, and_then-some, some-inj, true, false, ◌⊎◌, ◌&&◌,
}
use bestiario.Prelude.Int.{
  ℤ, pos, pos_part, ◌-ℤ◌, ◌+ℤ◌, ◌≤ℤ◌, ◌<ℤ◌, ltb_ℤ, i64_max, +ℤ_parts, wrap_i64,
}
use bestiario.Prelude.Lists.{In}
use bestiario.Prelude.Result.{ok}
use bestiario.Ingest.Event.{Event}
use bestiario.Ingest.Policy.{untagged}
use bestiario.Ingest.Outcome.{Counts, add}
use bestiario.Db.State.{Db}
use bestiario.Commands.Range.{Range, resolve, contains, max_window_secs}
use bestiario.Commands.Range.Bounds.{resolve-exact}
use bestiario.Commands.Filters.{Filter, for_kind, narrowed, is_nil}
use bestiario.Commands.Filters.Window.{admits, narrowed-admits}
use bestiario.Commands.Filters.Authors.{for_kind-none, for_kind-narrowed}
use bestiario.Backfill.{ingest_all, next_until, oldest, oldest-least, next-fits}
use bestiario.Backfill.Walk.{Client, Backfill, Request, page, walk_from, filled}
use bestiario.Backfill.Walk.Pages.{pages, ingest_pages, walk_from-pages}
use bestiario.Backfill.Walk.Terminates.{IsHonest, pages-some, page-below, page-moves}

-- The event is on the page, or it is no younger than any event of the page and older than one.
abbrev pub IsReadOrLeft : Event → List Event → Type 0
IsReadOrLeft event events =
    In event events
    ⊎ (((other : Event) × In other events × (event.created_at < other.created_at))
        × ((other : Event) → In other events → event.created_at ≤ other.created_at))

-- What a relay answers, of the events it holds that a request is about: the newest ones. An event that
-- a filter admits and that is left out is no younger than any event of the page, and older than one.
pub record IsNewestFirst (client : Client) (request : Request) (held : Event → Type 0)
    : Type 0 where
  pub answers :
      (filter : Filter)
      → filter.kind ≡ request.kind
      → (events : List Event) × (client.fetch_window request.relay filter ≡ some events)
  pub newest :
      (filter : Filter) (events : List Event)
      → filter.kind ≡ request.kind
      → client.fetch_window request.relay filter ≡ some events
      → (event : Event) → held event
      → admits filter event.created_at ≡ true
      → IsReadOrLeft event events

module _ (backfill : Backfill) (request : Request) (held : Event → Type 0)
    (honest : IsHonest backfill.client) (after_1970 : pos 0 ≤ℤ backfill.range.from)
    (serves : IsNewestFirst backfill.client request held)
    (asks : (untagged request.kind && is_nil request.vouched) ≡ false) where
  -- A filter is built, whichever the window.
  built :
      (window : Range)
      → (filter : Filter) × (for_kind request.kind backfill.authors request.vouched
            (some window)
            (some backfill.window_limit)
          ≡ some filter)
  built window =
      elim (Option-cases (
        for_kind request.kind backfill.authors request.vouched (some window)
          (some backfill.window_limit))) [
            | inl e ↦
                let (t, nobody) =
                  (for_kind-none request.kind backfill.authors request.vouched (some window)
                      (some backfill.window_limit)).0
                    e in
                absurd (cc (rw (t, nobody) at asks))
            | inr found ↦ found
          ]

  filled-some :
      (events : List Event) (event : Event) → In event events → filled events ≡ some events
  filled-some [] event i = absurd i
  filled-some (e ∷ events) event i = refl

  In-Read :
      (event : Event) (events : List Event)
      → IsReadOrLeft event events
      → (one : Event) × In one events
  In-Read event events (inl i) = (event, i)
  In-Read event events (inr ((other, i, _), _)) = (other, i)

  page-Read :
      (until : ℤ) (event : Event)
      → until <ℤ i64_max
      → until ≤ℤ backfill.range.from +ℤ max_window_secs
      → held event
      → backfill.range.from ≤ℤ pos event.created_at
      → pos event.created_at <ℤ until
      → (events : List Event) × (page backfill request until ≡ some events)
        × IsReadOrLeft event events
  unfolding page narrowed contains
  page-Read until event below narrow is_held since before =
      let window : Range = record { from = backfill.range.from; until = until } in
      let (filter, b) = built window in
      let (authors, q) =
        for_kind-narrowed request.kind backfill.authors request.vouched (some window)
          (some backfill.window_limit) filter b in
      let same_kind : filter.kind ≡ request.kind = ap (λ f. f.kind) (sym q) in
      let (events, answered) = serves.answers filter same_kind in
      let resolved : resolve (some backfill.range.from) (some until) backfill.now ≡ ok window =
        (resolve-exact backfill.range.from until backfill.now).1 (omega arith, narrow) in
      let is_admitted : admits filter event.created_at ≡ true =
        subst (λ f. admits f event.created_at ≡ true) q
          (narrowed-admits window request.kind authors (some backfill.window_limit) event.created_at
              (omega arith) (omega arith) (omega arith, omega arith)
            ∙ ground arith) in
      let read = serves.newest filter events same_kind answered event is_held is_admitted in
      let (one, i) = In-Read event events read in
      let above : ltb_ℤ backfill.range.from until ≡ true = ground arith in
      (events, rw (above, resolved, b, answered) (filled-some events one i), read)

  -- An event that is left out is below the next bound.
  left-below :
      (until : ℤ) (event other : Event) (events : List Event)
      → until <ℤ i64_max
      → page backfill request until ≡ some events
      → In other events
      → event.created_at < other.created_at
      → ((one : Event) → In one events → event.created_at ≤ one.created_at)
      → pos event.created_at <ℤ next_until until events
  unfolding next_until
  left-below until event other events below read i older least =
      let ((first, j, q), _) = oldest-least other events i in
      let later : event.created_at ≤ first.created_at = least first j in
      let first_below : pos first.created_at <ℤ until =
        page-below backfill honest after_1970 request until events below read first j in
      let other_below : pos other.created_at <ℤ until =
        page-below backfill honest after_1970 request until events below read other i in
      let fits = next-fits events (ground arith) in
      let parts = +ℤ_parts (oldest events) (pos 1) in rw (next_until, fits) (ground (arith, parts))

  pages-reach :
      (fuel : ℕ) (until : ℤ) (read : List (List Event)) (event : Event)
      → pages backfill request fuel until ≡ some read
      → until <ℤ i64_max
      → until ≤ℤ backfill.range.from +ℤ max_window_secs
      → held event
      → backfill.range.from ≤ℤ pos event.created_at
      → pos event.created_at <ℤ until
      → (events : List Event) × In events read × In event events
  unfolding pages
  pages-reach zero until read event h below narrow is_held since before = cc
  pages-reach (suc fuel) until read event h below narrow is_held since before =
      let (events, e, is_read) = page-Read until event below narrow is_held since before in
      let (rest, q, r) =
        and_then-some (pages backfill request fuel (next_until until events))
          (rw (pages, e) at h) in
      let whole : events ∷ rest ≡ read = some-inj r in
      let (_, moves, _) = page-moves backfill honest after_1970 request until events below e in
      elim is_read [
        | inl i ↦ (events, subst (In events) whole (inl refl), i)
        | inr ((other, i, older), least) ↦
            let (found, j, k) =
              pages-reach fuel (next_until until events) rest event q (omega arith) (omega arith)
                is_held since (left-below until event other events below e i older least) in
            (found, subst (In found) whole (inr j), k)
      ]

  -- A walk reads everything. Take a relay that answers each filter with events that the filter
  -- admits, newest first, so that an event it holds and leaves out is no younger than any event of
  -- the page and older than one of them; a kind of which somebody is asked; and a range that
  -- starts at 0 or later, ends before the last second of an `i64` and spans at most 100 years. On
  -- more fuel than the range has seconds the walk comes to an end, its result is that of the
  -- pipeline on the pages it read, one after the other, and every event that the relay holds
  -- within the range is on one of those pages.
  pub walk_from_complete :
      (fuel : ℕ) (until : ℤ) (db : Db) (counts : Counts)
      → until <ℤ i64_max
      → until ≤ℤ backfill.range.from +ℤ max_window_secs
      → pos_part (until -ℤ backfill.range.from) < fuel
      → (read : List (List Event)) × (walk_from backfill request fuel until db counts
          ≡ some (ingest_pages backfill request read db counts))
        × ((event : Event)
            → held event
            → backfill.range.from ≤ℤ pos event.created_at
            → pos event.created_at <ℤ until
            → (events : List Event) × In events read × In event events)
  walk_from_complete fuel until db counts below narrow enough_fuel =
      let (read, q) = pages-some backfill honest after_1970 request fuel until below enough_fuel in
      (
        read,
        walk_from-pages backfill request fuel until db counts ∙ rw q refl,
        λ event is_held since before.
            pages-reach fuel until read event q below narrow is_held since before,
      )

next_until-stuck :
    (until : ℤ) (events : List Event)
    → until <ℤ i64_max
    → oldest events ≡ until
    → next_until until events ≡ until
unfolding next_until
next_until-stuck until events below q =
    let fits : wrap_i64 (until +ℤ pos 1) ≡ until +ℤ pos 1 =
      subst (λ a. wrap_i64 (a +ℤ pos 1) ≡ a +ℤ pos 1) q
        (next-fits events (subst (λ a. a <ℤ i64_max) (sym q) below)) in
    rw (q, fits, passed until) refl
  where
    passed : (a : ℤ) → ltb_ℤ (a +ℤ pos 1) a ≡ false
    passed a = ground (arith, +ℤ_parts a (pos 1))

-- At a bound before the last second of an `i64`, with a page whose oldest second is that bound, a
-- walk does not end on any fuel.
pub walk_from-stuck :
    (backfill : Backfill) (request : Request) (events : List Event) (until : ℤ) (fuel : ℕ) (db : Db)
    (counts : Counts)
    → until <ℤ i64_max
    → page backfill request until ≡ some events
    → oldest events ≡ until
    → walk_from backfill request fuel until db counts ≡ none
unfolding walk_from
walk_from-stuck backfill request events until zero db counts below h q = refl
walk_from-stuck backfill request events until (suc fuel) db counts below h q =
    rw (walk_from, h, next_until-stuck until events below q)
      (walk_from-stuck backfill request events until fuel
        (ingest_all backfill.sdk backfill.policy request.relay backfill.now events db).0
        (add counts
          (ingest_all backfill.sdk backfill.policy request.relay backfill.now events db).1)
        below h q)
