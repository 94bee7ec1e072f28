-- ===== src/Ingest/Pipeline.antt =====
-- One event through admission, archive and projections (src/ingest/pipeline.rs). A transaction is the
-- step from one state of the tables to the next: the failures of SQLite itself are not modelled.
pub mod Consistency
pub mod Again
pub mod Admission
pub mod Tagged
pub mod Vouched
use bestiario.Prelude.{String, Option, none, some, if◌then◌else◌}
use bestiario.Prelude.Int.{ℤ, as_i64}
use bestiario.Prelude.Result.{Result, ok, err}
use bestiario.Ingest.Event.{Event, Sdk}
use bestiario.Ingest.Outcome.{Rejection, IngestOutcome, stored, duplicate, redundant, rejected}
use bestiario.Ingest.Policy.{Policy, admit, vouched_for}
use bestiario.Ingest.Persist.{Parsed, parse, parsed_heartbeat, persist}
use bestiario.Db.State.{Db}
use bestiario.Db.Instances
use bestiario.Db.Cursors
use bestiario.Db.Events.{new_record, exists, insert_if_new, is_redundant}

unfoldable pub advance : Event → String → ℤ → Db → Db
advance event relay_url now db = record db {
  sync_state = Cursors.advance relay_url event.kind (as_i64 event.created_at) now db.sync_state;
}

-- The archive's row for the event.
abbrev pub archive : Sdk → Event → String → ℤ → Db → Db
archive sdk event relay_url now db = record db {
  events = insert_if_new (new_record sdk event relay_url now) db.events;
}

-- The transaction of an event that parsed.
unfoldable pub transact : Sdk → Event → String → ℤ → Parsed → Db → Db × IngestOutcome
transact sdk event relay_url now parsed db =
    if is_redundant sdk db.events db.rates event (parsed_heartbeat parsed)
    then (
      advance event relay_url now (record db {
        instances = Instances.upsert event.pubkey none (as_i64 event.created_at) db.instances;
      }),
      redundant,
    )
    else if exists event.id db.events
    then (advance event relay_url now db, duplicate)
    else (
      advance event relay_url now (persist event parsed (archive sdk event relay_url now db)),
      stored,
    )

abbrev pub parsed_or_archived :
    Sdk → Event → String → ℤ → Result Rejection Parsed → Db → Db × IngestOutcome
parsed_or_archived sdk event relay_url now (ok parsed) db =
    transact sdk event relay_url now parsed db
parsed_or_archived sdk event relay_url now (err rejection) db =
    (archive sdk event relay_url now db, rejected rejection)

abbrev pub turned_away : Option Rejection → Option Rejection → Option Rejection
turned_away (some rejection) later = some rejection
turned_away none later = later

-- What follows the two gates.
abbrev pub judged : Sdk → Event → String → ℤ → Option Rejection → Db → Db × IngestOutcome
judged sdk event relay_url now (some rejection) db = (db, rejected rejection)
judged sdk event relay_url now none db =
    parsed_or_archived sdk event relay_url now (parse sdk event) db

-- `Pipeline::ingest`
unfoldable pub ingest : Sdk → Policy → Event → String → ℤ → Db → Db × IngestOutcome
ingest sdk policy event relay_url now db =
    judged sdk event relay_url now
      (turned_away (admit sdk policy event) (vouched_for sdk policy db event)) db

abbrev pub replayed : Event → Result Rejection Parsed → Db → Db × IngestOutcome
replayed event (ok parsed) db = (persist event parsed db, stored)
replayed event (err rejection) db = (db, rejected rejection)

-- `Pipeline::replay`
unfoldable pub replay : Sdk → Event → Db → Db × IngestOutcome
replay sdk event db = replayed event (parse sdk event) db
