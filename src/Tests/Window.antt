-- ===== src/Tests/Window.antt =====
-- A window of a backfill, at concrete events.
use bestiario.Prelude.{◌≡◌, List, [], ◌∷◌, inl, inr, arith, subst, sym}
use bestiario.Prelude.Int.{pos, ◌≤ℤ◌, ◌<ℤ◌, as_i64}
use bestiario.Prelude.Lists.{In, length}
use bestiario.Ingest.Event.{Event}
use bestiario.Ingest.Outcome.{total}
use bestiario.Ingest.Pipeline.Consistency.{IsConsistent, empty-IsConsistent}
use bestiario.Db.State.{empty}
use bestiario.Backfill.{ingest_all, oldest, next_until, ingest_all-IsConsistent, next_until-moves}
use bestiario.Tests.Fixtures.{sdk, policy, relay, success_event, pending_event}

abbrev page : List Event
page = success_event ∷ pending_event ∷ []

ingest_all-IsConsistent_example :
    IsConsistent (ingest_all sdk policy relay (pos 1700000010) page empty).0
    × (total (ingest_all sdk policy relay (pos 1700000010) page empty).1 ≡ length page)
ingest_all-IsConsistent_example =
    ingest_all-IsConsistent sdk policy relay (pos 1700000010) page empty empty-IsConsistent

page_below : (e : Event) → In e page → as_i64 e.created_at <ℤ pos 1700000002
page_below e (inl q) = subst (λ x. as_i64 x.created_at <ℤ pos 1700000002) (sym q) (omega arith)
page_below e (inr (inl q)) =
    subst (λ x. as_i64 x.created_at <ℤ pos 1700000002) (sym q) (omega arith)
page_below e (inr (inr i)) = absurd i

next_until-moves_example :
    (next_until (pos 1700000002) page <ℤ pos 1700000002)
    × (oldest page ≤ℤ next_until (pos 1700000002) page)
    × (oldest page ≤ℤ as_i64 success_event.created_at)
next_until-moves_example =
    next_until-moves (pos 1700000002) page success_event (omega arith) (inl refl_success) page_below
  where
    refl_success : success_event ≡ success_event
    refl_success = λ i. success_event
