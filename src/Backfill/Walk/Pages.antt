-- ===== src/Backfill/Walk/Pages.antt =====
-- The walk of a backfill as the pages it reads (src/commands/backfill.rs): the pages are those of the
-- relay alone, and what is stored does not change which are asked for.
use bestiario.Prelude.{
  ◌≡◌, refl, ◌∙◌, ℕ, zero, suc, ◌+◌, Option, none, some, List, [], ◌∷◌, arith, and_then,
}
use bestiario.Prelude.Int.{ℤ}
use bestiario.Prelude.Lists.{length}
use bestiario.Ingest.Event.{Event}
use bestiario.Ingest.Outcome.{Counts, add, total}
use bestiario.Ingest.Pipeline.Consistency.{IsConsistent}
use bestiario.Db.State.{Db}
use bestiario.Backfill.{ingest_all, next_until, ingest_all-IsConsistent}
use bestiario.Backfill.Walk.{Backfill, Request, page, walk_from}

-- The pages from a bound down, on fuel.
unfoldable pub pages : Backfill → Request → ℕ → ℤ → Option (List (List Event))
pages backfill request zero until = none
pages backfill request (suc fuel) until = elim (page backfill request until) [
  | none ↦ some []
  | some events ↦
      and_then (pages backfill request fuel (next_until until events))
        (λ rest. some (events ∷ rest))
]

-- Pages through the pipeline, one after the other.
unfoldable pub ingest_pages : Backfill → Request → List (List Event) → Db → Counts → Db × Counts
ingest_pages backfill request [] db counts = (db, counts)
ingest_pages backfill request (events ∷ rest) db counts =
    ingest_pages backfill request rest
      (ingest_all backfill.sdk backfill.policy request.relay backfill.now events db).0
      (add counts (ingest_all backfill.sdk backfill.policy request.relay backfill.now events db).1)

pub walk_from-pages :
    (backfill : Backfill) (request : Request) (fuel : ℕ) (until : ℤ) (db : Db) (counts : Counts)
    → walk_from backfill request fuel until db counts
      ≡ and_then
          (pages backfill request fuel until)
          (λ read. some (ingest_pages backfill request read db counts))
unfolding walk_from pages ingest_pages
walk_from-pages backfill request zero until db counts = refl
walk_from-pages backfill request (suc fuel) until db counts =
    turn (page backfill request until)
      (λ events d c. walk_from-pages backfill request fuel (next_until until events) d c)
  where
    join :
        (events : List Event) (o : Option (List (List Event)))
        → and_then o (λ read. some (
            ingest_pages backfill request read
              (ingest_all backfill.sdk backfill.policy request.relay backfill.now events db).0
              (add counts
                (ingest_all backfill.sdk backfill.policy request.relay backfill.now events db).1)))
          ≡ and_then
              (and_then o (λ rest. some (events ∷ rest)))
              (λ read. some (ingest_pages backfill request read db counts))
    join events none = refl
    join events (some rest) = refl

    turn :
        (o : Option (List Event))
        → ((events : List Event) (d : Db) (c : Counts)
            → walk_from backfill request fuel (next_until until events) d c
              ≡ and_then
                  (pages backfill request fuel (next_until until events))
                  (λ read. some (ingest_pages backfill request read d c)))
        → elim o [
          | none ↦ some (db, counts)
          | some events ↦
              walk_from backfill request fuel
                (next_until until events)
                (ingest_all backfill.sdk backfill.policy request.relay backfill.now events db).0
                (add counts
                  (ingest_all backfill.sdk backfill.policy request.relay backfill.now events db).1)
        ]
          ≡ and_then
              (elim o [
                | none ↦ some []
                | some events ↦
                    and_then
                      (pages backfill request fuel (next_until until events))
                      (λ rest. some (events ∷ rest))
              ])
              (λ read. some (ingest_pages backfill request read db counts))
    turn none ih = refl
    turn (some events) ih =
        ih events _ _ ∙ join events (pages backfill request fuel (next_until until events))

total-add : (a b : Counts) → total (add a b) ≡ total a + total b
unfolding total add
total-add a b = omega arith

abbrev pub events_of : List (List Event) → ℕ
events_of [] = 0
events_of (events ∷ rest) = length events + events_of rest

pub ingest_pages-IsConsistent :
    (backfill : Backfill) (request : Request) (read : List (List Event)) (db : Db) (counts : Counts)
    → IsConsistent db
    → IsConsistent (ingest_pages backfill request read db counts).0
      × (total (ingest_pages backfill request read db counts).1 ≡ total counts + events_of read)
unfolding ingest_pages
ingest_pages-IsConsistent backfill request [] db counts c = (c, omega arith)
ingest_pages-IsConsistent backfill request (events ∷ rest) db counts c =
    let (kept, counted) =
      ingest_all-IsConsistent backfill.sdk backfill.policy request.relay backfill.now events db c in
    let (final, sum) =
      ingest_pages-IsConsistent backfill request rest
        (ingest_all backfill.sdk backfill.policy request.relay backfill.now events db).0
        (add counts
          (ingest_all backfill.sdk backfill.policy request.relay backfill.now events db).1)
        kept in
    (
      final,
      omega (
        arith,
        sum,
        counted,
        total-add counts
            (ingest_all backfill.sdk backfill.policy request.relay backfill.now events db).1,
      ),
    )
