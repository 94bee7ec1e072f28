-- ===== src/Db.antt =====
-- The archive: one module for each table (src/db/repo).
pub mod Csv
pub mod Table
pub mod Projection
pub mod Orders
pub mod Disputes
pub mod DevFees
pub mod Instances
pub mod Cursors
pub mod Events
pub mod State
