-- ===== src/Rebuild/Tables.antt =====
-- What `replay` and the sweeps of a rebuild do to the tables of orders and of disputes, as steps on a
-- table of versions and its projection.
use bestiario.Prelude.{String, ◌≡◌, refl, ap, ◌∙◌, Option, none, some, and_then, List, [], ◌∷◌, map}
use bestiario.Prelude.Result.{Result, ok, err}
use bestiario.Ingest.Event.{Event, Sdk}
use bestiario.Ingest.Parse.Order.{OrderVersion}
use bestiario.Ingest.Parse.Dispute.{DisputeVersion}
use bestiario.Ingest.Parse.Identity.{instance_name}
use bestiario.Ingest.Outcome.{Rejection}
use bestiario.Ingest.Persist.{
  Parsed, order, dev_fee, dispute, info, rates_of, relay_list, parse, see_instance, persist_parsed,
  persist,
}
use bestiario.Ingest.Pipeline.{replayed, replay}
use bestiario.Db.State.{Db}
use bestiario.Db.Table.{Table}
use bestiario.Db.Events.{EventRecord}
use bestiario.Db.Orders
use bestiario.Db.Orders.{Order}
use bestiario.Db.Orders.Projection.{orders_projection}
use bestiario.Db.Orders.Projection as OrdersProjection
use bestiario.Db.Disputes
use bestiario.Db.Disputes.{Dispute}
use bestiario.Db.Disputes.Projection.{disputes_projection}
use bestiario.Db.Disputes.Projection as DisputesProjection
use bestiario.Rebuild.{Rebuilt, replay_read, replay_record, replay_all}
use bestiario.Rebuild.Replay.{take, take_all}

abbrev pub orders_of : Db → List OrderVersion × Table Order
orders_of db = (db.order_versions, db.orders)

abbrev pub disputes_of : Db → List DisputeVersion × Table Dispute
disputes_of db = (db.dispute_versions, db.disputes)

-- The version that a parsed event is.
abbrev pub order_in : Result Rejection Parsed → Option OrderVersion
order_in (ok (order v)) = some v
order_in _ = none

abbrev pub dispute_in : Result Rejection Parsed → Option DisputeVersion
dispute_in (ok (dispute v)) = some v
dispute_in _ = none

-- The version that an archived event gives, when it is read back and parsed.
abbrev pub order_from : Sdk → EventRecord → Option OrderVersion
order_from sdk r = and_then (sdk.from_json r.raw_json) λ event. order_in (parse sdk event)

abbrev pub dispute_from : Sdk → EventRecord → Option DisputeVersion
dispute_from sdk r = and_then (sdk.from_json r.raw_json) λ event. dispute_in (parse sdk event)

see_instance-orders :
    (event : Event) (name : Option String) (db : Db)
    → orders_of (see_instance event name db) ≡ orders_of db
unfolding see_instance
see_instance-orders event none db = refl
see_instance-orders event (some name) db = refl

see_instance-disputes :
    (event : Event) (name : Option String) (db : Db)
    → disputes_of (see_instance event name db) ≡ disputes_of db
unfolding see_instance
see_instance-disputes event none db = refl
see_instance-disputes event (some name) db = refl

persist_parsed-orders :
    (parsed : Parsed) (db : Db)
    → orders_of (persist_parsed parsed db)
      ≡ take orders_projection (order_in (ok parsed)) (orders_of db)
unfolding persist_parsed Orders.insert_version OrdersProjection.refresh_projection
persist_parsed-orders (order v) db = refl
persist_parsed-orders (dev_fee fee) db = refl
persist_parsed-orders (dispute v) db = refl
persist_parsed-orders (info i) db = refl
persist_parsed-orders (rates_of snapshot) db = refl
persist_parsed-orders (relay_list list) db = refl

persist_parsed-disputes :
    (parsed : Parsed) (db : Db)
    → disputes_of (persist_parsed parsed db)
      ≡ take disputes_projection (dispute_in (ok parsed)) (disputes_of db)
unfolding persist_parsed Disputes.insert_version DisputesProjection.refresh_projection
persist_parsed-disputes (order v) db = refl
persist_parsed-disputes (dev_fee fee) db = refl
persist_parsed-disputes (dispute v) db = refl
persist_parsed-disputes (info i) db = refl
persist_parsed-disputes (rates_of snapshot) db = refl
persist_parsed-disputes (relay_list list) db = refl

pub persist-orders :
    (event : Event) (parsed : Parsed) (db : Db)
    → orders_of (persist event parsed db)
      ≡ take orders_projection (order_in (ok parsed)) (orders_of db)
unfolding persist
persist-orders event parsed db =
    persist_parsed-orders parsed (see_instance event (instance_name event) db)
    ∙ ap (take orders_projection (order_in (ok parsed)))
        (see_instance-orders event (instance_name event) db)

pub persist-disputes :
    (event : Event) (parsed : Parsed) (db : Db)
    → disputes_of (persist event parsed db)
      ≡ take disputes_projection (dispute_in (ok parsed)) (disputes_of db)
unfolding persist
persist-disputes event parsed db =
    persist_parsed-disputes parsed (see_instance event (instance_name event) db)
    ∙ ap (take disputes_projection (dispute_in (ok parsed)))
        (see_instance-disputes event (instance_name event) db)

module _ (sdk : Sdk) where
  replayed-orders :
      (event : Event) (result : Result Rejection Parsed) (db : Db)
      → orders_of (replayed event result db).0
        ≡ take orders_projection (order_in result) (orders_of db)
  replayed-orders event (ok parsed) db = persist-orders event parsed db
  replayed-orders event (err rejection) db = refl

  replayed-disputes :
      (event : Event) (result : Result Rejection Parsed) (db : Db)
      → disputes_of (replayed event result db).0
        ≡ take disputes_projection (dispute_in result) (disputes_of db)
  replayed-disputes event (ok parsed) db = persist-disputes event parsed db
  replayed-disputes event (err rejection) db = refl

  read-orders :
      (found : Option Event) (state : Db × Rebuilt)
      → orders_of (replay_read sdk found state).0
        ≡ take orders_projection
            (and_then found λ event. order_in (parse sdk event))
            (orders_of state.0)
  unfolding replay
  read-orders none (db, n) = refl
  read-orders (some event) (db, n) = replayed-orders event (parse sdk event) db

  read-disputes :
      (found : Option Event) (state : Db × Rebuilt)
      → disputes_of (replay_read sdk found state).0
        ≡ take disputes_projection
            (and_then found λ event. dispute_in (parse sdk event))
            (disputes_of state.0)
  unfolding replay
  read-disputes none (db, n) = refl
  read-disputes (some event) (db, n) = replayed-disputes event (parse sdk event) db

  pub replay_all-orders :
      (rows : List EventRecord) (state : Db × Rebuilt)
      → orders_of (replay_all sdk rows state).0
        ≡ take_all orders_projection (map (order_from sdk) rows) (orders_of state.0)
  unfolding replay_all replay_record
  replay_all-orders [] state = refl
  replay_all-orders (r ∷ rows) state =
      replay_all-orders rows (replay_record sdk r state)
      ∙ ap (take_all orders_projection (map (order_from sdk) rows))
          (read-orders (sdk.from_json r.raw_json) state)

  pub replay_all-disputes :
      (rows : List EventRecord) (state : Db × Rebuilt)
      → disputes_of (replay_all sdk rows state).0
        ≡ take_all disputes_projection (map (dispute_from sdk) rows) (disputes_of state.0)
  unfolding replay_all replay_record
  replay_all-disputes [] state = refl
  replay_all-disputes (r ∷ rows) state =
      replay_all-disputes rows (replay_record sdk r state)
      ∙ ap (take_all disputes_projection (map (dispute_from sdk) rows))
          (read-disputes (sdk.from_json r.raw_json) state)
