-- ===== src/Rebuild/Same.antt =====
-- `rebuild --from-raw` over an archive that `ingest` filled (src/commands/rebuild.rs,
-- src/ingest/pipeline.rs).
use bestiario.Prelude.{
  String, ◌≡◌, refl, sym, ap, ◌∙◌, inl, inr, true, false, Bool-cases, Option, none, some, List,
  subst,
}
use bestiario.Prelude.Int.{ℤ}
use bestiario.Prelude.Lists.{IsKeyed, SameRows}
use bestiario.Prelude.Result.{Result, ok, err}
use bestiario.Ingest.Event.{Event, Sdk, ReadsBack}
use bestiario.Ingest.Parse.Identity.{instance_name}
use bestiario.Ingest.Outcome.{Rejection}
use bestiario.Ingest.Policy.{Policy}
use bestiario.Ingest.Persist.{Parsed, parse, parsed_heartbeat, persist}
use bestiario.Ingest.Pipeline.{advance, archive, transact, parsed_or_archived, judged, ingest}
use bestiario.Ingest.Pipeline.Consistency.{IsConsistent, empty-IsConsistent, ingest-IsConsistent}
use bestiario.Ingest.Pipeline.Again.{persist_parsed-events}
use bestiario.Db.State.{Db, empty}
use bestiario.Db.Table.{Table}
use bestiario.Db.Events.{exists, insert_if_new, is_redundant}
use bestiario.Db.Projection.{Projection, IsCurrent, project-SameRows}
use bestiario.Db.Orders.Projection.{orders_projection}
use bestiario.Db.Disputes.Projection.{disputes_projection}
use bestiario.Rebuild.{all, rebuild}
use bestiario.Rebuild.Sorted.{all-SameRows}
use bestiario.Rebuild.Replay.{take}
use bestiario.Rebuild.Derived.{take_all-SameRows}
use bestiario.Rebuild.Tables.{
  orders_of, disputes_of, order_in, dispute_in, order_from, dispute_from, persist-orders,
  persist-disputes,
}
use bestiario.Rebuild.Current.{rebuild-orders, rebuild-disputes, rebuild-IsCurrent}
use bestiario.Rebuild.Ingested.{IsRecorded, ingested-IsRecorded}

-- The archives that events fill, each signed event being one that its own JSON reads back as.
pub data IsFilled (sdk : Sdk) : Db → Type 0 where
  start : IsFilled sdk empty
  more :
      (policy : Policy) (event : Event) (relay_url : String) (now : ℤ) (db : Db)
      → ReadsBack sdk event
      → IsFilled sdk db
      → IsFilled sdk (ingest sdk policy event relay_url now db).0

module _ (sdk : Sdk) (event : Event) (relay_url : String) (now : ℤ)
    (reads_back : ReadsBack sdk event) where
  archived-IsRecorded :
      (rejection : Rejection) (db : Db)
      → parse sdk event ≡ err rejection
      → IsRecorded sdk db
      → IsRecorded sdk (archive sdk event relay_url now db)
  unfolding insert_if_new
  archived-IsRecorded rejection db e recorded =
      ingested-IsRecorded sdk event relay_url now reads_back db (archive sdk event relay_url now db)
        recorded refl (sym (ap (λ r. take orders_projection (order_in r) (orders_of db)) e))
        (sym (ap (λ r. take disputes_projection (dispute_in r) (disputes_of db)) e))
        (inr (ap order_in e, ap dispute_in e))

  stored-IsRecorded :
      (parsed : Parsed) (db : Db)
      → parse sdk event ≡ ok parsed
      → exists event.id db.events ≡ false
      → IsRecorded sdk db
      → IsRecorded sdk (persist event parsed (archive sdk event relay_url now db))
  unfolding insert_if_new
  stored-IsRecorded parsed db e new recorded =
      ingested-IsRecorded sdk event relay_url now reads_back db
        (persist event parsed (archive sdk event relay_url now db)) recorded
        (unfold persist in
          persist_parsed-events sdk event parsed (instance_name event)
            (archive sdk event relay_url now db))
        (persist-orders event parsed (archive sdk event relay_url now db)
          ∙ sym (ap (λ r. take orders_projection (order_in r) (orders_of db)) e))
        (persist-disputes event parsed (archive sdk event relay_url now db)
          ∙ sym (ap (λ r. take disputes_projection (dispute_in r) (disputes_of db)) e))
        (inl new)

  transact-IsRecorded :
      (parsed : Parsed) (db : Db)
      → parse sdk event ≡ ok parsed
      → IsRecorded sdk db
      → IsRecorded sdk (transact sdk event relay_url now parsed db).0
  unfolding transact advance
  transact-IsRecorded parsed db e recorded =
      elim (Bool-cases (is_redundant sdk db.events db.rates event (parsed_heartbeat parsed))) [
        | inl r ↦ rw r (record {
          faithful = recorded.faithful;
          orders = recorded.orders;
          disputes = recorded.disputes;
        })
        | inr r ↦ elim (Bool-cases (exists event.id db.events)) [
          | inl x ↦
              rw (r, x)
                (record {
                  faithful = recorded.faithful;
                  orders = recorded.orders;
                  disputes = recorded.disputes;
                })
          | inr x ↦
              let kept = stored-IsRecorded parsed db e x recorded in
              rw (r, x)
                (record {
                  faithful = kept.faithful;
                  orders = kept.orders;
                  disputes = kept.disputes;
                })
        ]
      ]

  parsed-IsRecorded :
      (result : Result Rejection Parsed) (db : Db)
      → parse sdk event ≡ result
      → IsRecorded sdk db
      → IsRecorded sdk (parsed_or_archived sdk event relay_url now result db).0
  parsed-IsRecorded (ok parsed) db e recorded = transact-IsRecorded parsed db e recorded
  parsed-IsRecorded (err rejection) db e recorded = archived-IsRecorded rejection db e recorded

  judged-IsRecorded :
      (verdict : Option Rejection) (db : Db)
      → IsRecorded sdk db
      → IsRecorded sdk (judged sdk event relay_url now verdict db).0
  judged-IsRecorded none db recorded = parsed-IsRecorded (parse sdk event) db refl recorded
  judged-IsRecorded (some rejection) db recorded = recorded

empty-IsRecorded : (sdk : Sdk) → IsRecorded sdk empty
empty-IsRecorded sdk = record {
  faithful = λ r i. absurd i;
  orders = record { to = λ a i. absurd i; back = λ a r i e. absurd i };
  disputes = record { to = λ a i. absurd i; back = λ a r i e. absurd i };
}

filled-IsRecorded : (sdk : Sdk) (db : Db) → IsFilled sdk db → IsRecorded sdk db
unfolding ingest
filled-IsRecorded sdk db start = empty-IsRecorded sdk
filled-IsRecorded sdk db (more policy event relay_url now before reads_back filled) =
    judged-IsRecorded sdk event relay_url now reads_back _ before
      (filled-IsRecorded sdk before filled)

filled-IsConsistent : (sdk : Sdk) (db : Db) → IsFilled sdk db → IsConsistent db
filled-IsConsistent sdk db start = empty-IsConsistent
filled-IsConsistent sdk db (more policy event relay_url now before reads_back filled) =
    ingest-IsConsistent sdk policy event relay_url now before
      (filled-IsConsistent sdk before filled)

-- The same row, for the same versions.
module _ {V O : Type 0} (p : Projection V O) where
  same_row :
      (versions versions' : List V) (table table' : Table O) (id : String)
      → IsCurrent p versions table
      → IsCurrent p versions' table'
      → SameRows versions versions'
      → IsKeyed p.event_id versions
      → table' id ≡ table id
  same_row versions versions' table table' id current current' same keyed =
      current' id ∙ sym (project-SameRows p versions versions' id same keyed) ∙ sym (current id)

-- Over an archive that calls of `ingest` filled from the empty one, with any policies, relays and
-- times, by events that each read back from the JSON that the archive keeps of them, `rebuild
-- --from-raw` leaves the row of every order and of every dispute as it was.
pub rebuild_from_raw_same :
    (sdk : Sdk) (db : Db) (id : String)
    → IsFilled sdk db
    → ((rebuild sdk true db).0.orders id ≡ db.orders id)
      × ((rebuild sdk true db).0.disputes id ≡ db.disputes id)
rebuild_from_raw_same sdk db id filled =
    let recorded = filled-IsRecorded sdk db filled in
    let consistent = filled-IsConsistent sdk db filled in
    let (orders, disputes) =
      rebuild-IsCurrent sdk true db consistent.order_versions_once
        consistent.dispute_versions_once in
    (
      same_row orders_projection db.order_versions (rebuild sdk true db).0.order_versions db.orders
          (rebuild sdk true db).0.orders id consistent.orders_current orders
          (subst (λ s. SameRows db.order_versions s.0) (sym (rebuild-orders sdk true db))
            (take_all-SameRows orders_projection (order_from sdk) db.events (all db.events)
              db.order_versions (λ k. none) recorded.orders consistent.order_versions_once
              (all-SameRows db.events)))
          consistent.order_versions_once,
      same_row disputes_projection db.dispute_versions (rebuild sdk true db).0.dispute_versions
          db.disputes (rebuild sdk true db).0.disputes id consistent.disputes_current disputes
          (subst (λ s. SameRows db.dispute_versions s.0) (sym (rebuild-disputes sdk true db))
            (take_all-SameRows disputes_projection (dispute_from sdk) db.events (all db.events)
              db.dispute_versions (λ k. none) recorded.disputes consistent.dispute_versions_once
              (all-SameRows db.events)))
          consistent.dispute_versions_once,
    )
