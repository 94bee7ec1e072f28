-- ===== src/Backfill/Walk/Terminates.antt =====
-- The bound of each page against the bound before it, and the turns of a walk (src/commands/backfill.rs).
use bestiario.Prelude.{
  ◌≡◌, refl, sym, ap, ◌∙◌, ℕ, zero, suc, ◌<◌, ◌≤◌, Option, none, some, List, [], ◌∷◌, arith,
  and_then, String, true,
}
use bestiario.Prelude.Int.{ℤ, pos, pos_part, ◌-ℤ◌, ◌≤ℤ◌, ◌<ℤ◌, i64_max, as_i64, -ℤ_parts}
use bestiario.Prelude.Lists.{In}
use bestiario.Ingest.Event.{Event}
use bestiario.Ingest.Outcome.{Counts, zero_counts, add}
use bestiario.Db.State.{Db}
use bestiario.Commands.Range.{Range}
use bestiario.Commands.Filters.Authors.{for_kind-narrowed}
use bestiario.Commands.Filters.{window, Filter, narrowed}
use bestiario.Commands.Filters.Window.{admits}
use bestiario.Backfill.{next_until, oldest, next_until-moves}
use bestiario.Backfill.Walk.{
  Client, Backfill, Request, walk, walk_kinds, walk_relays, vouched, enough, page, walk_from,
}
use bestiario.Backfill.Walk.Pages.{pages, walk_from-pages, ingest_pages}
use bestiario.Backfill.Walk.Asked.{Asked, page-Asked, admits-below}

-- A relay answers a filter with events that the filter admits.
abbrev pub IsHonest : Client → Type 0
IsHonest client =
    (relay : String) (filter : Filter) (events : List Event)
    → client.fetch_window relay filter ≡ some events
    → (event : Event) → In event events
    → admits filter event.created_at ≡ true

-- The range lies after 1970, and its end is a second that an `i64` can count past.
abbrev pub IsCounted : Range → Type 0
IsCounted range = (pos 0 ≤ℤ range.from) × (range.until <ℤ i64_max)

module _ (backfill : Backfill) (honest : IsHonest backfill.client)
    (after_1970 : pos 0 ≤ℤ backfill.range.from) where
  module _ (request : Request) where
    -- Every event of a page is below the bound.
    pub page-below :
        (until : ℤ) (events : List Event)
        → until <ℤ i64_max
        → page backfill request until ≡ some events
        → (event : Event) → In event events
        → pos event.created_at <ℤ until
    unfolding narrowed window
    page-below until events below h event i =
        let asked_for : Asked backfill request until events =
          page-Asked backfill request until events h in
        let window : Range = record { from = backfill.range.from; until = until } in
        let (authors, q) =
          for_kind-narrowed request.kind backfill.authors request.vouched (some window)
            (some backfill.window_limit) asked_for.filter asked_for.built in
        let above : backfill.range.from <ℤ until = asked_for.above in
        admits-below window asked_for.filter event.created_at (ap (λ f. f.until) (sym q))
          (omega arith) below
          (honest request.relay asked_for.filter events asked_for.answered event i)

    pub page-moves :
        (until : ℤ) (events : List Event)
        → until <ℤ i64_max
        → page backfill request until ≡ some events
        → (backfill.range.from <ℤ until)
          × (next_until until events <ℤ until)
          × (oldest events ≤ℤ next_until until events)
    page-moves until events below h =
        let asked_for : Asked backfill request until events =
          page-Asked backfill request until events h in
        let (moves, low, _) =
          next_until-moves until events asked_for.one (omega arith) asked_for.has_one
            (λ event i. counted event.created_at (page-below until events below h event i)) in
        (asked_for.above, moves, low)
      where
        counted : (t : ℕ) → pos t <ℤ until → as_i64 t <ℤ until
        counted t lower = ground arith

    pub pages-some :
        (fuel : ℕ) (until : ℤ)
        → until <ℤ i64_max
        → pos_part (until -ℤ backfill.range.from) < fuel
        → (read : List (List Event)) × (pages backfill request fuel until ≡ some read)
    unfolding pages
    pages-some zero until below h = absurd (omega arith)
    pages-some (suc fuel) until below h =
        turn (page backfill request until) refl (λ next lower few. pages-some fuel next lower few)
      where
        turn :
            (o : Option (List Event))
            → page backfill request until ≡ o
            → ((next : ℤ)
                → next <ℤ i64_max
                → pos_part (next -ℤ backfill.range.from) < fuel
                → (read : List (List Event)) × (pages backfill request fuel next ≡ some read))
            → (read : List (List Event)) × ((elim o [
              | none ↦ some []
              | some events ↦
                  and_then
                    (pages backfill request fuel (next_until until events))
                    (λ rest. some (events ∷ rest))
            ])
                ≡ some read)
        turn none e ih = ([], refl)
        turn (some events) e ih =
            let (above, moves, _) = page-moves until events below e in
            let (rest, q) = ih (next_until until events) (omega arith) (
              ground (
                arith,
                -ℤ_parts until backfill.range.from,
                -ℤ_parts (next_until until events) backfill.range.from,
              )) in
            (events ∷ rest, rw q refl)

    pub walk_from-terminates :
        (fuel : ℕ) (until : ℤ) (db : Db) (counts : Counts)
        → until <ℤ i64_max
        → pos_part (until -ℤ backfill.range.from) < fuel
        → (out : Db × Counts) × (walk_from backfill request fuel until db counts ≡ some out)
    walk_from-terminates fuel until db counts below h =
        let (read, q) = pages-some fuel until below h in
        (
          ingest_pages backfill request read db counts,
          walk_from-pages backfill request fuel until db counts ∙ rw q refl,
        )

  walk-terminates :
      (fuel : ℕ) (relay : String) (kind : ℕ) (db : Db)
      → backfill.range.until <ℤ i64_max
      → enough backfill ≤ fuel
      → (out : Db × Counts) × (walk backfill fuel relay kind db ≡ some out)
  unfolding walk enough
  walk-terminates fuel relay kind db below short =
      walk_from-terminates (record { relay = relay; kind = kind; vouched = vouched backfill db })
        fuel backfill.range.until db zero_counts below (omega arith)

  walk_kinds-terminates :
      (fuel : ℕ) (relay : String) (kinds : List ℕ) (db : Db) (walked : Counts)
      → backfill.range.until <ℤ i64_max
      → enough backfill ≤ fuel
      → (out : Db × Counts) × (walk_kinds backfill fuel relay kinds db walked ≡ some out)
  unfolding walk_kinds
  walk_kinds-terminates fuel relay [] db walked below short = ((db, walked), refl)
  walk_kinds-terminates fuel relay (kind ∷ kinds) db walked below short =
      let ((after, counts), q) = walk-terminates fuel relay kind db below short in
      let (out, e) = walk_kinds-terminates fuel relay kinds after (add walked counts) below short in
      (out, rw q e)

  -- Where relays answer a filter only with events that the filter admits, and the range starts at
  -- 0 or later and ends before the last second of an `i64`, the walk over any relays and any kinds
  -- comes to an end on `enough` fuel for each walk or more, whatever is in the archive.
  pub walk_relays-terminates :
      (fuel : ℕ) (relays : List String) (kinds : List ℕ) (db : Db) (walked : Counts)
      → backfill.range.until <ℤ i64_max
      → enough backfill ≤ fuel
      → (out : Db × Counts) × (walk_relays backfill fuel relays kinds db walked ≡ some out)
  unfolding walk_relays
  walk_relays-terminates fuel [] kinds db walked below short = ((db, walked), refl)
  walk_relays-terminates fuel (relay ∷ relays) kinds db walked below short =
      let ((after, counts), q) =
        walk_kinds-terminates fuel relay kinds db zero_counts below short in
      let (out, e) =
        walk_relays-terminates fuel relays kinds after (add walked counts) below short in
      (out, rw q e)
