-- ===== src/Tests.antt =====
-- The theorems at concrete inputs, and runs of the model.
mod Figures
mod Fixtures
mod Archive
mod Derived
mod Addresses
mod Publishing
mod Buckets
mod Commands
mod Statistics
mod Walk
mod Window
