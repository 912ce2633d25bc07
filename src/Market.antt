-- ===== src/Market.antt =====
-- include/market/: price generators, ticks and the threaded systems that turn them into messages.
pub mod Double
pub mod Cents
pub mod Generator
pub mod RandomWalk
pub mod BrownianMotion
pub mod Tick
pub mod Snapshot
pub mod Setup
pub mod Wire
pub mod Size
pub mod NonBlocking
pub mod Blocking
pub mod BrownianBlocking
pub mod BrownianNonBlocking
mod Tests
