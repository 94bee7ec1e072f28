-- ===== src/Rebuild.antt =====
-- `bestiario rebuild`: the projections, and with `--from-raw` the version tables, made again from
-- the archived events (src/commands/rebuild.rs; `all` is in src/db/repo/events.rs).
pub mod Replay
pub mod Derived
pub mod Tables
pub mod Current
pub mod Recorded
pub mod Ingested
pub mod Sorted
pub mod Same
use bestiario.Prelude.{
  ℕ, suc, String, Bool, true, false, ◌||◌, ◌&&◌, Option, none, some, List, [], ◌∷◌, if◌then◌else◌,
  ltb,
}
use bestiario.Prelude.Int.{ltb_ℤ, eqb_ℤ}
use bestiario.Prelude.Lists.{length}
use bestiario.Ingest.Event.{Event, Sdk}
use bestiario.Ingest.Outcome.{IngestOutcome, rejected}
use bestiario.Ingest.Pipeline.{replay}
use bestiario.Db.State.{Db}
use bestiario.Db.Events.{EventRecord}
use bestiario.Db.Table.{older}
use bestiario.Db.Orders
use bestiario.Db.Orders.Projection as OrdersProjection
use bestiario.Db.Disputes
use bestiario.Db.Disputes.Projection as DisputesProjection
use bestiario.Db.DevFees

pub record Rebuilt : Type 0 where
  pub events : ℕ
  pub unreadable : ℕ
  pub orders : ℕ
  pub disputes : ℕ

abbrev pub nothing_rebuilt : Rebuilt
nothing_rebuilt = record { events = 0; unreadable = 0; orders = 0; disputes = 0 }

abbrev pub archived_at : EventRecord → EventRecord → Bool
archived_at = older (λ r. r.created_at) (λ r. r.id)

unfoldable pub placed_record : EventRecord → List EventRecord → List EventRecord
placed_record r [] = r ∷ []
placed_record r (s ∷ rows) =
    let rest = placed_record r rows in if archived_at s r then s ∷ rest else r ∷ s ∷ rows

-- `SELECT … FROM events ORDER BY created_at, id`
unfoldable pub all : List EventRecord → List EventRecord
all [] = []
all (r ∷ rows) = placed_record r (all rows)

-- The tables that `--from-raw` empties.
unfoldable pub clear_versions : Bool → Db → Db
clear_versions false db = db
clear_versions true db = record db {
  order_versions = [];
  dispute_versions = [];
  dev_fees = [];
  instance_info = [];
  rates = [];
}

unfoldable pub clear_projections : Db → Db
clear_projections db = record db {
  orders = λ k. none;
  disputes = λ k. none;
  instances = λ k. none;
  instance_names = λ k n. none;
}

abbrev pub tally : IngestOutcome → Rebuilt → Rebuilt
tally (rejected rejection) n = record n { unreadable = suc n.unreadable }
tally _ n = record n { events = suc n.events }

abbrev pub replay_read : Sdk → Option Event → Db × Rebuilt → Db × Rebuilt
replay_read sdk none (db, n) = (db, record n { unreadable = suc n.unreadable })
replay_read sdk (some event) (db, n) = ((replay sdk event db).0, tally (replay sdk event db).1 n)

-- The body of the loop over the archived events, and the loop.
unfoldable pub replay_record : Sdk → EventRecord → Db × Rebuilt → Db × Rebuilt
replay_record sdk r state = replay_read sdk (sdk.from_json r.raw_json) state

unfoldable pub replay_all : Sdk → List EventRecord → Db × Rebuilt → Db × Rebuilt
replay_all sdk [] state = state
replay_all sdk (r ∷ rows) state = replay_all sdk rows (replay_record sdk r state)

-- The three sweeps.
abbrev pub sweep_orders : List String → Db → Db
sweep_orders [] db = db
sweep_orders (id ∷ ids) db =
    sweep_orders ids
      (record db { orders = OrdersProjection.refresh_projection id db.order_versions db.orders })

abbrev pub sweep_disputes : List String → Db → Db
sweep_disputes [] db = db
sweep_disputes (id ∷ ids) db = sweep_disputes ids (record db {
  disputes = DisputesProjection.refresh_projection id db.dispute_versions db.disputes;
})

abbrev pub sweep_fees : List String → Db → Db
sweep_fees [] db = db
sweep_fees (id ∷ ids) db =
    sweep_fees ids (record db { dev_fees = DevFees.refresh_duplicates id db.dev_fees })

-- The sweeps, with the ids read from the tables as they are before each.
unfoldable pub swept : Db × Rebuilt → Db × Rebuilt
swept (db, n) =
    let order_ids = Orders.ids db.order_versions in
    let dispute_ids = Disputes.ids db.dispute_versions in
    let db' = sweep_disputes dispute_ids (sweep_orders order_ids db) in
    (
      sweep_fees (DevFees.order_ids db'.dev_fees) db',
      record n { orders = length order_ids; disputes = length dispute_ids },
    )

unfoldable pub rebuild : Sdk → Bool → Db → Db × Rebuilt
rebuild sdk from_raw db =
    let cleared = clear_projections (clear_versions from_raw db) in
    swept (replay_all sdk (all cleared.events) (cleared, nothing_rebuilt))
