-- ===== src/Db/State.antt =====
-- The tables together, and the small repositories (src/db/repo/relays.rs, rates.rs,
-- instance_info.rs).
use bestiario.Prelude.{String, none, List, [], is_some, if◌then◌else◌}
use bestiario.Prelude.Int.{ℤ}
use bestiario.Db.Table.{Table, put, insert_or_ignore}
use bestiario.Db.Events.{EventRecord}
use bestiario.Db.Orders.{Order}
use bestiario.Db.Disputes.{Dispute}
use bestiario.Db.DevFees.{StoredDevFee}
use bestiario.Db.Instances.{Instance, Names}
use bestiario.Db.Cursors.{Cursors}
use bestiario.Ingest.Parse.Order.{OrderVersion}
use bestiario.Ingest.Parse.Dispute.{DisputeVersion}
use bestiario.Ingest.Parse.Info.{InstanceInfo}
use bestiario.Ingest.Parse.Rates.{RateSnapshot}

-- Who named a relay: the settings, or the relay list of an instance.
pub data Source : Type 0 where
  config : Source
  nip65 : String → Source

pub record Relay : Type 0 where
  pub source : Source
  pub first_seen_at : ℤ

-- `ON CONFLICT(url) DO NOTHING`
unfoldable pub upsert_relay : String → Source → ℤ → Table Relay → Table Relay
upsert_relay url source first_seen_at relays =
    if is_some (relays url)
    then relays
    else put url (record { source = source; first_seen_at = first_seen_at }) relays

unfoldable pub insert_info : InstanceInfo → List InstanceInfo → List InstanceInfo
insert_info = insert_or_ignore (λ i. i.event_id)

unfoldable pub insert_rates : RateSnapshot → List RateSnapshot → List RateSnapshot
insert_rates = insert_or_ignore (λ r. r.event_id)

pub record Db : Type 0 where
  pub events : List EventRecord
  pub instances : Table Instance
  pub instance_names : Names
  pub instance_info : List InstanceInfo
  pub order_versions : List OrderVersion
  pub orders : Table Order
  pub dev_fees : List StoredDevFee
  pub dispute_versions : List DisputeVersion
  pub disputes : Table Dispute
  pub rates : List RateSnapshot
  pub relays : Table Relay
  pub sync_state : Cursors

-- A database on which only the migrations have run.
abbrev pub empty : Db
empty = record {
  events = [];
  instances = λ k. none;
  instance_names = λ k n. none;
  instance_info = [];
  order_versions = [];
  orders = λ k. none;
  dev_fees = [];
  dispute_versions = [];
  disputes = λ k. none;
  rates = [];
  relays = λ k. none;
  sync_state = λ url kind. none;
}
