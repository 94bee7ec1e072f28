-- ===== src/Tests/Walk.antt =====
-- A walk over a relay that holds two orders, and one that does not end.
use bestiario.Prelude.{◌≡◌, refl, none, some, List, [], ◌∷◌, inl, arith, subst, sym, some-inj, ◌<◌}
use bestiario.Prelude.Int.{pos, negsuc, ◌≤ℤ◌, ◌<ℤ◌, ◌+ℤ◌, ◌-ℤ◌, pos_part, saturating_sub}
use bestiario.Prelude.Lists.{In, select, select-In, In-select}
use bestiario.Ingest.Event.{Event}
use bestiario.Ingest.Policy.{untagged}
use bestiario.Prelude.Best.{first}
use bestiario.Ingest.Outcome.{Counts, zero_counts}
use bestiario.Db.State.{Db, empty}
use bestiario.Commands.Range.{max_window_secs, resolve}
use bestiario.Commands.Filters.{Filter, for_kind}
use bestiario.Commands.Filters.Window.{admits}
use bestiario.Backfill.{oldest}
use bestiario.Backfill.Walk.{Client, Backfill, Request, page, walk_from, walk_relays, enough}
use bestiario.Backfill.Walk.Pages.{ingest_pages}
use bestiario.Backfill.Walk.Terminates.{IsHonest, walk_relays-terminates}
use bestiario.Backfill.Walk.Complete.{IsNewestFirst, walk_from_complete, walk_from-stuck}
use bestiario.Tests.Fixtures.{sdk, policy, relay, success_event, pending_event}

abbrev archive : List Event
archive = success_event ∷ pending_event ∷ []

-- The relay answers with all that the filter admits.
abbrev answer : Filter → List Event
answer filter = select (λ event. admits filter event.created_at) archive

abbrev client : Client
client = record {
  fetch_window = λ relay filter. some (answer filter);
  parse_key = λ text. some text;
}

abbrev backfill : Backfill
backfill = record {
  client = client;
  sdk = sdk;
  policy = policy;
  authors = [];
  listed = [];
  window_limit = 500;
  range = record { from = pos 1699999990; until = pos 1700000010 };
  now = pos 1700000020;
}

abbrev orders : Request
orders = record { relay = relay; kind = 38383; vouched = [] }

client-IsHonest : IsHonest client
client-IsHonest url filter events h event i =
    (select-In (λ e. admits filter e.created_at) event archive
      (subst (In event) (sym (some-inj h)) i)).1

client-IsNewestFirst : IsNewestFirst client orders (λ event. In event archive)
client-IsNewestFirst = record {
  answers = λ filter q. (answer filter, refl);
  newest = λ filter events q h event held t. inl (
      subst (In event) (some-inj h)
        (In-select (λ e. admits filter e.created_at) event archive held t));
}

narrow : pos 1700000010 ≤ℤ pos 1699999990 +ℤ max_window_secs
unfolding ◌+ℤ◌
narrow = omega arith

enough_fuel : pos_part (pos 1700000010 -ℤ pos 1699999990) < 21
unfolding ◌-ℤ◌
enough_fuel = omega arith

-- Nothing that the relay holds is left out, whatever is stored.
walk_from_complete_example :
    (read : List (List Event)) × (walk_from backfill orders 21 (pos 1700000010) empty zero_counts
      ≡ some (ingest_pages backfill orders read empty zero_counts))
    × ((event : Event)
        → In event archive
        → pos 1699999990 ≤ℤ pos event.created_at
        → pos event.created_at <ℤ pos 1700000010
        → (events : List Event) × In events read × In event events)
unfolding untagged
walk_from_complete_example =
    walk_from_complete backfill orders (λ event. In event archive) client-IsHonest (omega arith)
      client-IsNewestFirst refl 21 (pos 1700000010) empty zero_counts (omega arith) narrow
      enough_fuel

walk_relays-terminates_example :
    (out : Db × Counts) × (walk_relays backfill
        (enough backfill)
        (relay ∷ [])
        (38383 ∷ 38386 ∷ [])
        empty
        zero_counts
      ≡ some out)
walk_relays-terminates_example =
    walk_relays-terminates backfill client-IsHonest (omega arith) (enough backfill) (relay ∷ [])
      (38383 ∷ 38386 ∷ []) empty zero_counts (omega arith) (omega arith)

-- The end of the walk over the relay.
abbrev walked :
    (out : Db × Counts) × (walk_relays backfill
        (enough backfill)
        (relay ∷ [])
        (38383 ∷ 38386 ∷ [])
        empty
        zero_counts
      ≡ some out)
walked =
    walk_relays-terminates backfill client-IsHonest (omega arith) (enough backfill) (relay ∷ [])
      (38383 ∷ 38386 ∷ []) empty zero_counts (omega arith) (omega arith)

-- A relay with one event, of the first second of 1970, and a range that ends there.
abbrev first_event : Event
first_event = record pending_event { created_at = 0 }

abbrev early : Backfill
early = record backfill {
  client = record client { fetch_window = λ relay filter. some (first_event ∷ []) };
  range = record { from = negsuc 9; until = pos 0 };
}

early-page : page early orders (pos 0) ≡ some (first_event ∷ [])
unfolding page resolve for_kind saturating_sub ◌-ℤ◌ untagged
early-page = refl

early_oldest : oldest (first_event ∷ []) ≡ pos 0
unfolding oldest first
early_oldest = refl

walk_from-stuck_example : walk_from early orders 1000 (pos 0) empty zero_counts ≡ none
walk_from-stuck_example =
    walk_from-stuck early orders (first_event ∷ []) (pos 0) 1000 empty zero_counts (omega arith)
      early-page early_oldest
