-- ===== src/Commands.antt =====
-- The commands' shared settings: the window a command reports on, and what it asks relays for.
pub mod Range
pub mod Filters
