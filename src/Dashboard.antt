-- ===== src/Dashboard.antt =====
-- dashboard.py: the program that receives the feed and draws it.
pub mod Text
pub mod Bounded
pub mod Parser
pub mod Layout
pub mod Reads
pub mod Receiver
pub mod Log
pub mod Metrics
pub mod Rates
pub mod Shown
mod Tests
