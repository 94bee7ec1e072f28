-- ===== src/Ingest/Persist.antt =====
-- Parsing by kind, and the rows that a parsed event leaves (src/ingest/pipeline.rs).
use bestiario.Prelude.{String, Option, none, some, List, [], ◌∷◌, ◌==◌, if◌then◌else◌}
use bestiario.Prelude.Int.{ℤ, as_i64}
use bestiario.Prelude.Result.{Result, ok, err}
use bestiario.Ingest.Event.{Event, Sdk}
use bestiario.Ingest.Parse.Tags.{Parse}
use bestiario.Ingest.Parse.Identity.{instance_name}
use bestiario.Ingest.Parse.Order.{OrderVersion, kind_order, parse_order}
use bestiario.Ingest.Parse.DevFee.{DevFee, kind_dev_fee, parse_dev_fee}
use bestiario.Ingest.Parse.Dispute.{DisputeVersion, kind_dispute, parse_dispute}
use bestiario.Ingest.Parse.Info.{InstanceInfo, kind_info, parse_info}
use bestiario.Ingest.Parse.Rates.{RateSnapshot, kind_rates, parse_rates}
use bestiario.Ingest.Parse.RelayList.{RelayList, kind_relay_list, parse_relay_list}
use bestiario.Db.Table.{Table}
use bestiario.Db.State.{Db, Relay, Source, nip65, upsert_relay, insert_info, insert_rates}
use bestiario.Db.Orders
use bestiario.Db.Orders.Projection as OrdersProjection
use bestiario.Db.Disputes
use bestiario.Db.Disputes.Projection as DisputesProjection
use bestiario.Db.DevFees
use bestiario.Db.Instances
use bestiario.Db.Events.{Heartbeat, announcement, rates, none_of_these}
use bestiario.Ingest.Outcome.{Rejection, malformed, unsupported_kind}

pub data Parsed : Type 0 where
  order : OrderVersion → Parsed
  dev_fee : DevFee → Parsed
  dispute : DisputeVersion → Parsed
  info : InstanceInfo → Parsed
  rates_of : RateSnapshot → Parsed
  relay_list : RelayList → Parsed

-- `Ok(Parsed::…(parse(event)?))`
abbrev pub parsed_as : {A : Type 0} → (A → Parsed) → Parse A → Result Rejection Parsed
parsed_as wrap (ok a) = ok (wrap a)
parsed_as wrap (err error) = err (malformed error)

unfoldable pub parse : Sdk → Event → Result Rejection Parsed
parse sdk event =
    if event.kind == kind_order
    then parsed_as order (parse_order sdk event)
    else if event.kind == kind_dev_fee
    then parsed_as dev_fee (parse_dev_fee sdk event)
    else if event.kind == kind_dispute
    then parsed_as dispute (parse_dispute event)
    else if event.kind == kind_info
    then parsed_as info (parse_info sdk event)
    else if event.kind == kind_rates
    then parsed_as rates_of (parse_rates sdk event)
    else if event.kind == kind_relay_list
    then parsed_as relay_list (parse_relay_list sdk event)
    else err (unsupported_kind event.kind)

abbrev pub parsed_heartbeat : Parsed → Heartbeat
parsed_heartbeat (rates_of snapshot) = rates snapshot.published_at
parsed_heartbeat (info i) = announcement
parsed_heartbeat (relay_list l) = announcement
parsed_heartbeat _ = none_of_these

abbrev pub upsert_relays : List String → Source → ℤ → Table Relay → Table Relay
upsert_relays [] source at relays = relays
upsert_relays (url ∷ urls) source at relays =
    upsert_relays urls source at (upsert_relay url source at relays)

-- The row of the publisher, seen at the time of the event, and the name that the event gives it.
unfoldable pub see_instance : Event → Option String → Db → Db
see_instance event none db = record db {
  instances = Instances.upsert event.pubkey none (as_i64 event.created_at) db.instances;
}
see_instance event (some name) db = record db {
  instances = Instances.upsert event.pubkey (some name) (as_i64 event.created_at) db.instances;
  instance_names =
      Instances.record_name event.pubkey name (as_i64 event.created_at) db.instance_names;
}

unfoldable pub persist_parsed : Parsed → Db → Db
persist_parsed (order version) db =
    let versions = Orders.insert_version version db.order_versions in
    record db {
      order_versions = versions;
      orders = OrdersProjection.refresh_projection version.order_id versions db.orders;
    }
persist_parsed (dev_fee fee) db = record db { dev_fees = DevFees.insert fee db.dev_fees }
persist_parsed (dispute version) db =
    let versions = Disputes.insert_version version db.dispute_versions in
    record db {
      dispute_versions = versions;
      disputes = DisputesProjection.refresh_projection version.dispute_id versions db.disputes;
    }
persist_parsed (info i) db = record db { instance_info = insert_info i db.instance_info }
persist_parsed (rates_of snapshot) db = record db { rates = insert_rates snapshot db.rates }
persist_parsed (relay_list list) db = record db {
  relays = upsert_relays list.relays (nip65 list.pubkey) list.created_at db.relays;
}

unfoldable pub persist : Event → Parsed → Db → Db
unfolding see_instance persist_parsed
persist event parsed db = persist_parsed parsed (see_instance event (instance_name event) db)
