-- ===== src/Programs.antt =====
-- src/: the programs, each a `main` around one object of include/market/ or include/network/.
pub mod Script
pub mod Mains
pub mod Laws
pub mod Plan
pub mod Phases
pub mod Invariant
pub mod Progress
pub mod Ending
pub mod NonBlocking
pub mod BrownianNonBlocking
pub mod Blocking
pub mod Producers
pub mod Members
pub mod Dangling
pub mod Analyzer
pub mod Sources
pub mod Feed
mod Tests
