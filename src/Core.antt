-- ===== src/Core.antt =====
-- The two ring buffers of include/core/, and the bounded queue that both are held against.
pub mod Queue
pub mod Slots
pub mod Agree
pub mod Runs
pub mod LockFree
pub mod Blocking
