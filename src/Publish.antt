-- ===== src/Publish.antt =====
-- Publishing the statistics (crates/stats/src/publish).
pub mod Address
pub mod Size
pub mod Restatement
