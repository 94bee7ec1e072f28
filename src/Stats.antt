-- ===== src/Stats.antt =====
-- The statistics (crates/stats/src).
pub mod Window
pub mod Metric
pub mod Bucket
pub mod Percentile
pub mod Activity
pub mod Disputes
pub mod DevFees
pub mod Timing
pub mod Ranking
