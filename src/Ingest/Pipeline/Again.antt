-- ===== src/Ingest/Pipeline/Again.antt =====
-- Ingesting an event twice (src/ingest/pipeline.rs).
use bestiario.Prelude.{
  String, ◌≡◌, ◌≢◌, refl, sym, subst, ◌⊎◌, inl, inr, Option, none, some, List, true, false,
  Bool-cases, ◌==◌, ==_iff,
}
use bestiario.Prelude.Int.{ℤ}
use bestiario.Prelude.Lists.{any-In}
use bestiario.Prelude.Result.{Result, ok, err}
use bestiario.Ingest.Event.{Event, Sdk}
use bestiario.Ingest.Parse.Identity.{instance_name}
use bestiario.Ingest.Outcome.{Rejection, stored}
use bestiario.Ingest.Policy.{Policy, admit, vouched_for}
use bestiario.Ingest.Persist.{
  Parsed, order, see_instance, persist_parsed, persist, parse, parsed_heartbeat,
}
use bestiario.Ingest.Pipeline.{
  advance, archive, transact, parsed_or_archived, turned_away, judged, ingest,
}
use bestiario.Db.Table.{Table, insert_or_ignore, insert_or_ignore_has}
use bestiario.Db.Events.{EventRecord, record_id, new_record, insert_if_new, exists, is_redundant}
use bestiario.Db.State.{Db}
use bestiario.Db.Instances.{Instance}
use bestiario.Db.Cursors.{Cursors}

-- The two archives hold the same events, versions, projections, fees, rates, names and relays: all
-- but the sightings of instances and the cursors of relays.
pub record SameContent (a b : Db) : Type 0 where
  pub events : a.events ≡ b.events
  pub instance_names : a.instance_names ≡ b.instance_names
  pub instance_info : a.instance_info ≡ b.instance_info
  pub order_versions : a.order_versions ≡ b.order_versions
  pub orders : a.orders ≡ b.orders
  pub dev_fees : a.dev_fees ≡ b.dev_fees
  pub dispute_versions : a.dispute_versions ≡ b.dispute_versions
  pub disputes : a.disputes ≡ b.disputes
  pub rates : a.rates ≡ b.rates
  pub relays : a.relays ≡ b.relays

SameContent-moved :
    (db : Db) (instances : Table Instance) (sync_state : Cursors)
    → SameContent db (record db { instances = instances; sync_state = sync_state })
SameContent-moved db instances sync_state = record {
  events = refl;
  instance_names = refl;
  instance_info = refl;
  order_versions = refl;
  orders = refl;
  dev_fees = refl;
  dispute_versions = refl;
  disputes = refl;
  rates = refl;
  relays = refl;
}

SameContent-refl : (db : Db) → SameContent db db
SameContent-refl db = SameContent-moved db db.instances db.sync_state

SameContent-events :
    (db : Db) (events : List EventRecord)
    → events ≡ db.events
    → SameContent db (record db { events = events })
SameContent-events db events e = record {
  events = sym e;
  instance_names = refl;
  instance_info = refl;
  order_versions = refl;
  orders = refl;
  dev_fees = refl;
  dispute_versions = refl;
  disputes = refl;
  rates = refl;
  relays = refl;
}

module _ (sdk : Sdk) (event : Event) where
  -- The event is archived, or repeats what is.
  abbrev Settled : Db → Result Rejection Parsed → Type 0
  Settled db (err rejection) = exists event.id db.events ≡ true
  Settled db (ok parsed) =
      (exists event.id db.events ≡ true)
      ⊎ (is_redundant sdk db.events db.rates event (parsed_heartbeat parsed) ≡ true)

  archived :
      (relay_url : String) (now : ℤ) (db : Db)
      → exists event.id (archive sdk event relay_url now db).events ≡ true
  unfolding exists insert_if_new
  archived relay_url now db =
      let (a, i, e) =
        insert_or_ignore_has record_id (new_record sdk event relay_url now) db.events in
      any-In (λ r. r.id == event.id) a _ i ((==_iff a.id event.id).1 (unfold new_record in e))

  archive_again :
      (relay_url : String) (now : ℤ) (db : Db)
      → exists event.id db.events ≡ true
      → (archive sdk event relay_url now db).events ≡ db.events
  unfolding exists insert_if_new insert_or_ignore new_record
  archive_again relay_url now db h = rw h

  module _ (relay_url : String) (now : ℤ) where
    transact-Settled :
        (parsed : Parsed) (db : Db)
        → Settled db (ok parsed)
        → ((transact sdk event relay_url now parsed db).1 ≢ stored)
          × SameContent db (transact sdk event relay_url now parsed db).0
    unfolding transact advance
    transact-Settled parsed db settled =
        elim (Bool-cases (is_redundant sdk db.events db.rates event (parsed_heartbeat parsed))) [
          | inl r ↦ rw r ((λ e. cc), SameContent-moved db _ _)
          | inr r ↦ known settled r
        ]
      where
        known :
            Settled db (ok parsed)
            → is_redundant sdk db.events db.rates event (parsed_heartbeat parsed) ≡ false
            → ((transact sdk event relay_url now parsed db).1 ≢ stored)
              × SameContent db (transact sdk event relay_url now parsed db).0
        known (inl e) r = rw (r, e) ((λ q. cc), SameContent-moved db _ _)
        known (inr e) r = cc

    judged-Settled :
        (verdict : Option Rejection) (result : Result Rejection Parsed) (db : Db)
        → parse sdk event ≡ result
        → Settled db result
        → ((judged sdk event relay_url now verdict db).1 ≢ stored)
          × SameContent db (judged sdk event relay_url now verdict db).0
    judged-Settled (some rejection) result db p settled = ((λ e. cc), SameContent-refl db)
    judged-Settled none (ok parsed) db p settled = rw p (transact-Settled parsed db settled)
    judged-Settled none (err rejection) db p settled =
        rw p ((λ e. cc), SameContent-events db _ (archive_again relay_url now db settled))

  pub persist_parsed-events :
      (parsed : Parsed) (name : Option String) (db : Db)
      → (persist_parsed parsed (see_instance event name db)).events ≡ db.events
  unfolding persist_parsed see_instance
  persist_parsed-events (order version) none db = refl
  persist_parsed-events (order version) (some name) db = refl
  persist_parsed-events _ none db = refl
  persist_parsed-events _ (some name) db = refl

  transact_settles :
      (relay_url : String) (now : ℤ) (parsed : Parsed) (db : Db)
      → Settled (transact sdk event relay_url now parsed db).0 (ok parsed)
  unfolding transact advance persist
  transact_settles relay_url now parsed db =
      elim (Bool-cases (is_redundant sdk db.events db.rates event (parsed_heartbeat parsed))) [
        | inl r ↦ rw r (inr r)
        | inr r ↦ elim (Bool-cases (exists event.id db.events)) [
          | inl e ↦ rw (r, e) (inl e)
          | inr e ↦
              rw (r, e)
                (inl (
                  subst (λ rows. exists event.id rows ≡ true)
                    (sym (
                      persist_parsed-events parsed (instance_name event)
                        (archive sdk event relay_url now db)))
                    (archived relay_url now db)))
        ]
      ]

  settles :
      (relay_url : String) (now : ℤ) (result : Result Rejection Parsed) (db : Db)
      → Settled (parsed_or_archived sdk event relay_url now result db).0 result
  settles relay_url now (ok parsed) db = transact_settles relay_url now parsed db
  settles relay_url now (err rejection) db = archived relay_url now db

module _ (sdk : Sdk) (policy : Policy) (event : Event) where
  again_from :
      (url url' : String) (now now' : ℤ) (db : Db) (verdict : Option Rejection)
      → turned_away (admit sdk policy event) (vouched_for sdk policy db event) ≡ verdict
      → ((ingest sdk policy event url' now' (judged sdk event url now verdict db).0).1 ≢ stored)
        × SameContent
            (judged sdk event url now verdict db).0
            (ingest sdk policy event url' now' (judged sdk event url now verdict db).0).0
  unfolding ingest
  again_from url url' now now' db (some rejection) v = rw v ((λ e. cc), SameContent-refl db)
  again_from url url' now now' db none v =
      judged-Settled sdk event url' now' _ (parse sdk event) _ refl
        (settles sdk event url now (parse sdk event) db)

-- Whatever became of an event the first time, and whatever the archive held, the same event
-- ingested again, from any relay, is not stored, and leaves the events, the versions, the
-- projections, the fees, the rates, the names and the relays as they were.
pub ingest_again :
    (sdk : Sdk) (policy : Policy) (event : Event) (url url' : String) (now now' : ℤ) (db : Db)
    → let db' = (ingest sdk policy event url now db).0 in
      ((ingest sdk policy event url' now' db').1 ≢ stored)
      × SameContent db' (ingest sdk policy event url' now' db').0
unfolding ingest
ingest_again sdk policy event url url' now now' db =
    again_from sdk policy event url url' now now' db
      (turned_away (admit sdk policy event) (vouched_for sdk policy db event)) refl
