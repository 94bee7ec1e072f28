-- ===== src/Lib.antt =====
-- bestiario indexes the events that Mostro nodes publish on nostr relays into an SQLite archive,
-- computes statistics from it and publishes them. This library models the way of an event into the
-- archive, the walk of a backfill over relays, kinds and windows, the rebuild of what is derived from
-- the archive, the statistics of orders, disputes and development fees, and the addresses, sizes and
-- restatements of what is published.
--
-- The parts, and the files that model them:
--
--   Network          src/network.rs: the four networks and their wire forms.
--   Ingest/Event     an event of the nostr library, and the outside code as the record `Sdk`: the
--                    check of a signature (`Event::verify`), `as_json` and `from_json`, `Uuid`,
--                    `RelayUrl`, serde_json's reading of a document, and the texts of floating
--                    point numbers.
--   Ingest/Parse/*   src/ingest/parse/*.rs: one module for each kind of event. `parse` of order.rs is
--                    `parse_order`, of dispute.rs `parse_dispute`, and so on.
--   Ingest/Outcome   src/ingest/pipeline.rs: rejections, outcomes and their counts.
--   Ingest/Policy    src/ingest/pipeline.rs: `Policy`, `admit` and `vouched_for`.
--   Ingest/Persist   src/ingest/pipeline.rs: `Parsed`, `parse` and `persist`.
--   Ingest/Pipeline  src/ingest/pipeline.rs: `ingest`, `advance` and `replay`.
--   Db/*             src/db/repo/*.rs: the tables. Table has INSERT OR IGNORE and the tables with a
--                    text as their key; Projection is the interface that Orders and Disputes fill:
--                    versions, and the row that they project to. State has all tables together.
--   Rebuild          src/commands/rebuild.rs: `rebuild`. Replay and Derived treat one table of versions
--                    with its projection, Tables says what a replay does to orders and disputes.
--   Db/Csv           src/db/repo/csv.rs: lists in one column.
--   Commands/Range   src/commands/range.rs: the window and the instance that a command is about.
--   Commands/Filters src/nostr/filters.rs: what relays are asked for.
--   Backfill         src/commands/backfill.rs: one window, `ingest_all`, `oldest` and the next bound.
--   Backfill/Walk    src/commands/backfill.rs: `walk`, `walk_relays`, `vouched` and `requested_kinds`. The
--                    network is the record `Client`: what a relay answers to a filter. Pages reads a
--                    walk as the pages it fetches.
--   Stats/Window     crates/stats/src/window.rs: windows and their buckets. chrono is the record `Chrono`;
--                    Calendar has what it documents of the moments that it names, Tiling and
--                    Aligned the walk over buckets.
--   Stats/Bucket     crates/stats/src/bucket.rs: coverage, and a report by buckets.
--   Stats/Metric     crates/stats/src/metric.rs, and Stats/Percentile percentile.rs: Product
--                    treats the product of a share with a length, Rank the rank.
--   Stats/Activity   crates/stats/src/activity.rs: the counts; Report has groups, histograms and metrics.
--                    The arithmetic of floats is the record `Floats`.
--   Stats/Disputes   crates/stats/src/disputes.rs, Stats/Timing timing.rs, and Stats/DevFees dev_fees.rs
--                    less the report with the fees that are implied.
--   Stats/Ranking    crates/stats/src/market/ranking.rs: keys by weight.
--   Publish/Size     crates/stats/src/publish/size.rs, with the fold of src/commands/publish.rs.
--   Publish/Address  crates/stats/src/publish/address.rs: the `d` tag of a document. Parse has the parser,
--                    the other modules its texts.
--   Publish          crates/stats/src/publish/restatement.rs: Restatement has `against` and `recorded`,
--                    with the envelope of document.rs; Restatement/Snapshot has `Snapshot::restated`.
--                    chrono's RFC 3339 is the record `Clock`.
--
-- How the code is translated. An event id is 32 bytes, here one number; the text of an id has a fixed
-- width, so the order of the texts is the order of the numbers. A public key is its text. An `i64` is
-- an integer, and `as_secs() as i64` wraps as Rust does (`as_i64`). An `f64` is its 64 bits. A table is
-- a list of rows, where a statement orders or aggregates it, or a function from the key. INSERT OR
-- IGNORE, ON CONFLICT DO UPDATE, ORDER BY with LIMIT 1, MIN and MAX that skip NULL, and SELECT DISTINCT
-- with ORDER BY are translated clause by clause. Columns hold typed values: the texts that a column
-- stores for an enum are the ones of its `as_str`, which its `parse` reads back. A transaction is one
-- step from one state of the tables to the next; the failures of SQLite are not modelled. Sets and maps
-- are lists, maps sorted by their key.
--
-- Every loop over a list is recursion on it. The walk of a backfill has fuel, and `enough` is one more
-- than the seconds of its range: each turn moves the bound down by a second at least, as long as relays
-- answer a filter with what it admits. The
-- buckets of a window have fuel too, and a theorem says how much is enough: each turn moves the cursor
-- up by a second at least, as long as chrono's steps go forward.
--
-- Sums and differences of `i64` in the statistics and in a walk wrap around, as they do in a release
-- build, where the code does not check or saturate them.
--
-- The product that ranks a percentile is computed on whole numbers of units of 2^-1074, the smallest
-- `f64`, and rounded to 53 binary digits. The rounding halves a number 1200 times at most: a share of
-- at most 1 and a length of 64 bits have a product below 2^1139 units.
--
-- Not modelled: which of several faults of one malformed rates document is reported; the queries that
-- the reports make; volumes, the market, rates, series, instances, lifecycles and comparisons, and the
-- fees that are implied; the index and the content of published documents; the rounds of relay
-- discovery and live subscriptions; settings, command line, rendering, and the network.
pub mod Prelude
pub mod Network
pub mod Ingest
pub mod Db
pub mod Rebuild
pub mod Backfill
pub mod Stats
pub mod Publish
pub mod Commands
pub mod Tests
