-- ===== src/Benchmarks.antt =====
-- The programs of tests/: what their threads do with the rings.
pub mod Transfer
pub mod Percentile
mod Tests
