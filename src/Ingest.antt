-- ===== src/Ingest.antt =====
-- The ingestion half of the program: a relay's event in, rows in the archive out (src/ingest).
pub mod Event
pub mod Parse
pub mod Outcome
pub mod Policy
pub mod Persist
pub mod Pipeline
