-- ===== src/Ingest/Pipeline/Consistency.antt =====
-- What the tables must agree on, and the steps of the pipeline (src/ingest/pipeline.rs).
use bestiario.Prelude.{String, refl, Option, none, some, List, Bool-cases, inl, inr}
use bestiario.Prelude.Int.{ℤ}
use bestiario.Prelude.Best.{first}
use bestiario.Prelude.Lists.{IsKeyed, select}
use bestiario.Prelude.Result.{Result, ok, err}
use bestiario.Ingest.Event.{Event, Sdk}
use bestiario.Ingest.Parse.Order.{OrderVersion}
use bestiario.Ingest.Parse.Dispute.{DisputeVersion}
use bestiario.Ingest.Parse.Identity.{instance_name}
use bestiario.Ingest.Outcome.{Rejection}
use bestiario.Ingest.Policy.{Policy, admit, vouched_for}
use bestiario.Ingest.Persist.{
  Parsed, order, dev_fee, dispute, info, rates_of, relay_list, see_instance, persist_parsed,
  persist, parse, parsed_heartbeat,
}
use bestiario.Ingest.Pipeline.{
  advance, archive, transact, parsed_or_archived, turned_away, judged, ingest,
}
use bestiario.Db.Table.{Table, IsKeyed-insert_or_ignore}
use bestiario.Db.Projection.{IsCurrent, project, insert-IsCurrent}
use bestiario.Db.DevFees.{StoredDevFee}
use bestiario.Db.DevFees.Flags.{IsFlagged, no_fees-IsFlagged, insert-IsFlagged}
use bestiario.Db.Events.{EventRecord, record_id, new_record, insert_if_new, exists, is_redundant}
use bestiario.Db.Orders
use bestiario.Db.Orders.{Order}
use bestiario.Db.Orders.Projection.{orders_projection}
use bestiario.Db.Orders.Projection as OrdersProjection
use bestiario.Db.Disputes
use bestiario.Db.Disputes.{Dispute}
use bestiario.Db.Disputes.Projection.{disputes_projection}
use bestiario.Db.Disputes.Projection as DisputesProjection
use bestiario.Db.State.{Db, empty}

pub record TablesAgree (events : List EventRecord) (order_versions : List OrderVersion)
    (orders : Table Order) (dispute_versions : List DisputeVersion) (disputes : Table Dispute)
    (dev_fees : List StoredDevFee) : Type 0 where
  pub events_once : IsKeyed record_id events
  pub order_versions_once : IsKeyed (λ v. v.event_id) order_versions
  pub orders_current : IsCurrent orders_projection order_versions orders
  pub dispute_versions_once : IsKeyed (λ v. v.event_id) dispute_versions
  pub disputes_current : IsCurrent disputes_projection dispute_versions disputes
  pub fees_flagged : IsFlagged dev_fees

-- In each table two rows of one event id are the same row, and both projections are current, and the
-- fees are flagged.
abbrev pub IsConsistent : Db → Type 0
IsConsistent db =
    TablesAgree db.events db.order_versions db.orders db.dispute_versions db.disputes db.dev_fees

-- The archive before the first event.
pub empty-IsConsistent : IsConsistent empty
unfolding project select first Orders.row Disputes.row
empty-IsConsistent = record {
  events_once = λ a b i j e. absurd i;
  order_versions_once = λ a b i j e. absurd i;
  orders_current = λ id. refl;
  dispute_versions_once = λ a b i j e. absurd i;
  disputes_current = λ id. refl;
  fees_flagged = no_fees-IsFlagged;
}

module _ (sdk : Sdk) (event : Event) (relay_url : String) (now : ℤ) where
  archive-IsConsistent :
      (db : Db) → IsConsistent db → IsConsistent (archive sdk event relay_url now db)
  unfolding insert_if_new
  archive-IsConsistent db c = record {
    events_once =
        IsKeyed-insert_or_ignore record_id (new_record sdk event relay_url now) db.events
          c.events_once;
    order_versions_once = c.order_versions_once;
    orders_current = c.orders_current;
    dispute_versions_once = c.dispute_versions_once;
    disputes_current = c.disputes_current;
    fees_flagged = c.fees_flagged;
  }

  advance-IsConsistent : (db : Db) → IsConsistent db → IsConsistent (advance event relay_url now db)
  unfolding advance
  advance-IsConsistent db c = c

see_instance-IsConsistent :
    (event : Event) (name : Option String) (db : Db)
    → IsConsistent db
    → IsConsistent (see_instance event name db)
unfolding see_instance
see_instance-IsConsistent event none db c = c
see_instance-IsConsistent event (some name) db c = c

pub persist_parsed-IsConsistent :
    (parsed : Parsed) (db : Db) → IsConsistent db → IsConsistent (persist_parsed parsed db)
unfolding persist_parsed
persist_parsed-IsConsistent (order version) db c =
    unfold Orders.insert_version OrdersProjection.refresh_projection in
    record {
      events_once = c.events_once;
      order_versions_once =
          IsKeyed-insert_or_ignore (λ v. v.event_id) version db.order_versions
            c.order_versions_once;
      orders_current =
          insert-IsCurrent orders_projection version db.order_versions c.order_versions_once
            db.orders c.orders_current;
      dispute_versions_once = c.dispute_versions_once;
      disputes_current = c.disputes_current;
      fees_flagged = c.fees_flagged;
    }
persist_parsed-IsConsistent (dispute version) db c =
    unfold Disputes.insert_version DisputesProjection.refresh_projection in
    record {
      events_once = c.events_once;
      order_versions_once = c.order_versions_once;
      orders_current = c.orders_current;
      dispute_versions_once =
          IsKeyed-insert_or_ignore (λ v. v.event_id) version db.dispute_versions
            c.dispute_versions_once;
      disputes_current =
          insert-IsCurrent disputes_projection version db.dispute_versions c.dispute_versions_once
            db.disputes c.disputes_current;
      fees_flagged = c.fees_flagged;
    }
persist_parsed-IsConsistent (dev_fee fee) db c = record {
  events_once = c.events_once;
  order_versions_once = c.order_versions_once;
  orders_current = c.orders_current;
  dispute_versions_once = c.dispute_versions_once;
  disputes_current = c.disputes_current;
  fees_flagged = insert-IsFlagged fee db.dev_fees c.fees_flagged;
}
persist_parsed-IsConsistent (info i) db c = c
persist_parsed-IsConsistent (rates_of snapshot) db c = c
persist_parsed-IsConsistent (relay_list list) db c = c

pub persist-IsConsistent :
    (event : Event) (parsed : Parsed) (db : Db)
    → IsConsistent db
    → IsConsistent (persist event parsed db)
unfolding persist
persist-IsConsistent event parsed db c =
    persist_parsed-IsConsistent parsed (see_instance event (instance_name event) db)
      (see_instance-IsConsistent event (instance_name event) db c)

module _ (sdk : Sdk) (event : Event) (relay_url : String) (now : ℤ) where
  transact-IsConsistent :
      (parsed : Parsed) (db : Db)
      → IsConsistent db
      → IsConsistent (transact sdk event relay_url now parsed db).0
  unfolding transact
  transact-IsConsistent parsed db c =
      elim (Bool-cases (is_redundant sdk db.events db.rates event (parsed_heartbeat parsed))) [
        | inl r ↦ rw r (unfold advance in c)
        | inr r ↦ elim (Bool-cases (exists event.id db.events)) [
          | inl e ↦ rw (r, e) (advance-IsConsistent sdk event relay_url now db c)
          | inr e ↦
              rw (r, e)
                (advance-IsConsistent sdk event relay_url now _ (
                  persist-IsConsistent event parsed (archive sdk event relay_url now db)
                    (archive-IsConsistent sdk event relay_url now db c)))
        ]
      ]

  parsed_or_archived-IsConsistent :
      (r : Result Rejection Parsed) (db : Db)
      → IsConsistent db
      → IsConsistent (parsed_or_archived sdk event relay_url now r db).0
  parsed_or_archived-IsConsistent (ok parsed) db c = transact-IsConsistent parsed db c
  parsed_or_archived-IsConsistent (err rejection) db c =
      archive-IsConsistent sdk event relay_url now db c

verdict-IsConsistent :
    (verdict : Option Rejection) (sdk : Sdk) (event : Event) (relay_url : String) (now : ℤ)
    (db : Db)
    → IsConsistent db
    → IsConsistent (judged sdk event relay_url now verdict db).0
verdict-IsConsistent none sdk event relay_url now db c =
    parsed_or_archived-IsConsistent sdk event relay_url now (parse sdk event) db c
verdict-IsConsistent (some rejection) sdk event relay_url now db c = c

-- Every call of `ingest`, on every branch, keeps the archive consistent. Consistent means: two
-- rows of one event id are the same row in `events`, `order_versions`, `dispute_versions` and
-- `dev_fees`; each row of `orders` and `disputes` is what the stored versions of its id project
-- to; and a row of `dev_fees` is unflagged exactly where no row of its order was paid earlier,
-- ties decided by the event id.
pub ingest-IsConsistent :
    (sdk : Sdk) (policy : Policy) (event : Event) (relay_url : String) (now : ℤ) (db : Db)
    → IsConsistent db
    → IsConsistent (ingest sdk policy event relay_url now db).0
unfolding ingest
ingest-IsConsistent sdk policy event relay_url now db c =
    verdict-IsConsistent (turned_away (admit sdk policy event) (vouched_for sdk policy db event))
      sdk event relay_url now db c
