-- ===== src/Ingest/Parse.antt =====
-- The parsers, one for each kind of event that is indexed (src/ingest/parse).
pub mod Tags
pub mod Identity
pub mod Order
pub mod Dispute
pub mod DevFee
pub mod Info
pub mod Rates
pub mod RelayList
pub mod Words
