-- ===== src/Backfill.antt =====
-- One window of a backfill (src/commands/backfill.rs): its events through the pipeline, and the bound
-- of the window after it.
pub mod Walk
use bestiario.Prelude.{
  suc, String, ◌≡◌, refl, sym, ap, ◌∙◌, List, [], ◌∷◌, if◌then◌else◌, arith, none, some, map, subst,
  Option-cases, inl, inr,
}
use bestiario.Prelude.Int.{
  ℤ, pos, ◌≤ℤ◌, ◌<ℤ◌, ◌+ℤ◌, as_i64, ltb_ℤ, wrap_i64, wrap_i64-fits, IsI64, i64_max, +ℤ_parts,
}
use bestiario.Prelude.Lists.{In, length, In-map, map-In}
use bestiario.Prelude.Best.{first-In, first-some, first_least}
use bestiario.Ingest.Event.{Event, Sdk}
use bestiario.Ingest.Outcome.{
  IngestOutcome, stored, duplicate, redundant, rejected, Counts, zero_counts, count, total,
}
use bestiario.Ingest.Policy.{Policy}
use bestiario.Ingest.Pipeline.{ingest}
use bestiario.Ingest.Pipeline.Consistency.{IsConsistent, ingest-IsConsistent}
use bestiario.Db.Orders.{least}
use bestiario.Db.Orders.Projection.{least-IsWeakOrder}
use bestiario.Db.State.{Db}

-- The body of the loop: one event, and its outcome counted.
unfoldable pub ingest_one : Sdk → Policy → String → ℤ → Event → Db × Counts → Db × Counts
ingest_one sdk policy relay_url now event (db, counts) = (
  (ingest sdk policy event relay_url now db).0,
  count counts (ingest sdk policy event relay_url now db).1,
)

-- `events.iter().rev()`: the last event of the page goes first.
unfoldable pub ingest_all : Sdk → Policy → String → ℤ → List Event → Db → Db × Counts
ingest_all sdk policy relay_url now [] db = (db, zero_counts)
ingest_all sdk policy relay_url now (event ∷ events) db =
    ingest_one sdk policy relay_url now event (ingest_all sdk policy relay_url now events db)

abbrev pub seconds : Event → ℤ
seconds event = as_i64 event.created_at

-- `min().unwrap_or_default()`
unfoldable pub oldest : List Event → ℤ
oldest events = elim (least (map seconds events)) [ none ↦ pos 0 | some at ↦ at ]

-- Step to the oldest second seen, keeping it, and past it where that would not move. The sum
-- wraps around, as in a release build.
unfoldable pub next_until : ℤ → List Event → ℤ
unfolding wrap_i64
next_until until events =
    let next = wrap_i64 (oldest events +ℤ pos 1) in if ltb_ℤ next until then next else oldest events

count-total :
    (counts : Counts) (outcome : IngestOutcome) → total (count counts outcome) ≡ suc (total counts)
unfolding count total
count-total counts stored = omega arith
count-total counts duplicate = omega arith
count-total counts redundant = omega arith
count-total counts (rejected r) = omega arith

-- A page of events, fed to the pipeline last event first, keeps the archive consistent, in the
-- sense of `ingest-IsConsistent`, and each event of the page is counted once: the counts add up to
-- the length of the page.
pub ingest_all-IsConsistent :
    (sdk : Sdk) (policy : Policy) (relay_url : String) (now : ℤ) (events : List Event) (db : Db)
    → IsConsistent db
    → IsConsistent (ingest_all sdk policy relay_url now events db).0
      × (total (ingest_all sdk policy relay_url now events db).1 ≡ length events)
unfolding ingest_all ingest_one total
ingest_all-IsConsistent sdk policy relay_url now [] db c = (c, refl)
ingest_all-IsConsistent sdk policy relay_url now (event ∷ events) db c =
    let (kept, counted) = ingest_all-IsConsistent sdk policy relay_url now events db c in
    (
      ingest-IsConsistent sdk policy event relay_url now
          (ingest_all sdk policy relay_url now events db).0 kept,
      count-total (ingest_all sdk policy relay_url now events db).1 _ ∙ ap suc counted,
    )

-- The oldest second is one of the page's, and none is older.
pub oldest-least :
    (event : Event) (events : List Event)
    → In event events
    → ((e : Event) × In e events × (seconds e ≡ oldest events)) × (oldest events ≤ℤ seconds event)
unfolding oldest
oldest-least event events i =
    let (at, found) =
      first-some ltb_ℤ (seconds event) (map seconds events) (In-map seconds event events i) in
    let (e, j, q) = map-In seconds at events (first-In ltb_ℤ at (map seconds events) found) in
    let low =
      first_least ltb_ℤ least-IsWeakOrder at (seconds event) (map seconds events) found
        (In-map seconds event events i) in
    let o : oldest events ≡ at = rw (oldest, found) refl in
    ((e, j, sym q ∙ sym o), ground (arith, o))

seconds-IsI64 : (event : Event) → IsI64 (seconds event)
seconds-IsI64 event = (ground arith, ground arith)

oldest-IsI64 : (events : List Event) → IsI64 (oldest events)
unfolding oldest
oldest-IsI64 events = elim (Option-cases (least (map seconds events))) [
  | inl e ↦ rw (oldest, e) (omega arith, omega arith)
  | inr (at, e) ↦
      let (event, i, q) = map-In seconds at events (first-In ltb_ℤ at (map seconds events) e) in
      rw (oldest, e) (subst IsI64 (sym q) (seconds-IsI64 event))
]

-- Below the last second of an `i64` the sum does not wrap.
pub next-fits :
    (events : List Event)
    → oldest events <ℤ i64_max
    → wrap_i64 (oldest events +ℤ pos 1) ≡ oldest events +ℤ pos 1
next-fits events below =
    let (low, _) = oldest-IsI64 events in
    let parts = +ℤ_parts (oldest events) (pos 1) in
    wrap_i64-fits (oldest events +ℤ pos 1) (omega (arith, parts, low), omega (arith, parts, below))

-- After a page that holds an event, and whose events are all below the bound of the window, a
-- second that an `i64` holds, the next bound is below this one, so that the walk moves; and it is
-- not below the oldest second of the page, to which no event of the page is earlier.
pub next_until-moves :
    (until : ℤ) (events : List Event) (event : Event)
    → until ≤ℤ i64_max
    → In event events
    → ((e : Event) → In e events → as_i64 e.created_at <ℤ until)
    → (next_until until events <ℤ until)
      × (oldest events ≤ℤ next_until until events)
      × (oldest events ≤ℤ as_i64 event.created_at)
unfolding next_until
next_until-moves until events event in_range i below =
    let ((e, j, q), low) = oldest-least event events i in
    let under : oldest events <ℤ until = subst (λ t. t <ℤ until) q (below e j) in
    let fits = next-fits events (omega arith) in
    let parts = +ℤ_parts (oldest events) (pos 1) in
    rw fits (ground (arith, parts), ground (arith, parts), low)
