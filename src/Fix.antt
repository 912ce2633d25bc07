-- ===== src/Fix.antt =====
-- include/fix/message.h: the FIX message builder, the decimal text that it writes, and a receiver's
-- reading of what it builds.
pub mod Decimal
pub mod Message
pub mod Receiver
pub mod RoundTrip
pub mod Fields
pub mod Corruption
mod Tests
