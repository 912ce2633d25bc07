-- ===== src/Market/Setup.antt =====
-- The sender in the constructors of include/market/market_data_system_rw.h and its kin: if it cannot
-- be made, the exception is caught, and the system goes on without one.
use fix_feed_simulator.Prelude.{Bool, true, false}
use fix_feed_simulator.Network.Sender.{Descriptors, Answers, Built, built, threw, construct}

abbrev pub is_built : Built → Bool
is_built (built sender) = true
is_built (threw why) = false

-- All four systems send to port 9999.
abbrev pub has_sender : Answers → Descriptors → Bool
has_sender a fds = is_built (construct a 9999 fds).2
