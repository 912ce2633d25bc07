-- ===== src/Lib.antt =====
-- fix-feed-simulator: a C++ program that makes up market ticks, writes each as a FIX message and
-- multicasts it over UDP, a second program that captures such packets again, and a dashboard in
-- Python that receives them.
--
-- The parts, and the files that model them:
--   Core.LockFree         include/core/nonblocking_ring_buffer.h, `LockFreeRingBuffer`: `push`,
--                         `pop`, `size` and `capacity` as functions on a record of the two counters
--                         and the array. LockFree.Spsc cuts `push` and `pop` at each access to
--                         shared memory and interleaves one producer with one consumer; an acquire
--                         load may return an old value. LockFree.Spsc.Client puts any system around
--                         that, whose steps are mixed with the accesses.
--   Core.Blocking         include/core/blocking_ring_buffer.h, `BlockingRingBuffer`: a call that
--                         would wait is `none`. Blocking.Waiting adds the mutex and the condition
--                         variables: who sleeps, who is woken, and `stop`; Blocking.Crowd does so for any
--                         number of producers and consumers.
--   Core.Queue            what both rings promise: a queue of bounded length. LockFree.Spsc.Linear,
--                         LockFree.View and Core.Agree hold the rings against it.
--   Core.Slots            which slots of an array a queue occupies.
--   Core.Runs             runs of a step relation, and why they end.
--   Fix.Message           include/fix/message.h, `FIXMessage`: `addField` is `add_field`, `finalize`
--                         and `clearBody` keep their names, the moves are `move_construct` and
--                         `move_assign`. Fix.Decimal is the text of a number.
--   Fix.Receiver          not in the program: a reader of FIX messages, to state what a message is.
--   Network.Sender        include/network/udp_sender.h, `UDPMulticastSender`: the constructor, the
--                         destructor, the two moves and `send`, over the set of open descriptors.
--   Network.Capturer      include/network/packet_capturer.h, `PacketCapturer`: `handlePacket` on the
--                         bytes of a packet, a read past them being an outcome of its own, and the
--                         calls that the constructor makes to libpcap.
--   Market.Generator, Market.RandomWalk, Market.BrownianMotion
--                         include/market/price_generator.h, random_walk_generator.h and
--                         geometric_brownian_motion_generator.h there.
--   Market.Tick, Market.Snapshot
--                         `MarketTick`, how a price becomes one, and how one becomes a message, in
--                         include/market/market_data_system_rw.h.
--   Market.NonBlocking    include/market/market_data_system_rw_nonblocking.h: the members of
--                         `MarketDataSystemRWNonBlocking`, and the steps of its three threads and of
--                         `stop` in any order, over a queue. NonBlocking.OverRing has the lock-free
--                         ring in its place, as the client of Core.LockFree.Spsc.Client that it is.
--   Market.Blocking       include/market/market_data_system_rw.h: the same for `MarketDataSystemRW`,
--                         over any generator; Market.BrownianBlocking is the instance for
--                         `MarketDataSystemGBM` of include/market/market_data_system_gbm.h.
--   Market.BrownianNonBlocking
--                         include/market/market_data_system_gbm_nonblocking.h: the same for
--                         `MarketDataSystemNonBlocking`, which drops ticks at a full ring, with an
--                         OverRing of its own.
--   Market.Setup          the sender in the systems' constructors, which may fail.
--   Market.Wire           not in the program: what the messages on the wire tell of the ticks, stated
--                         for all systems; the `Wire` module of each has its proof. The `Span`
--                         modules are about the span that `finalize` returns, which the model has as
--                         a copy of the bytes.
--   Market.Size           how long the messages are, which the dashboard's buffer must hold.
--   Market.Cents          a concrete arithmetic, for the tests.
--   Programs.Mains        src/producer_rw.cpp, src/producer_gbm.cpp, src/producer_rw_nonblocking.cpp
--                         and src/producer_gbm_nonblocking.cpp: the actions of `main`. Programs.Script
--                         is what they do to the system that `main` owns, while its threads run and
--                         signals come, up to the destruction of its members, one by one.
--                         Programs.NonBlocking, Programs.BrownianNonBlocking and Programs.Blocking
--                         make the systems of Market the owned object, by the laws of Programs.Laws.
--                         Programs.Producers gives each `main` its system.
--   Programs.Feed         a producer and the analyzer together, over a network that may lose, double
--                         and reorder. Programs.Sources is the wire of any of the four systems.
--   Programs.Analyzer     src/analyzer_main.cpp: the lines that it prints and the status that it
--                         returns, over the answers of libpcap and the captured packets.
--   Dashboard             dashboard.py. Dashboard.Text is what it uses of Python's texts,
--                         Dashboard.Parser `parse_fix_message`, Dashboard.Receiver
--                         `network_receive_thread` over the answers of its socket, and
--                         Dashboard.Metrics `metrics_update_thread` beside it, in any order of their
--                         steps. Dashboard.Shown puts any of the producers in front of it.
--   Benchmarks.Transfer   tests/benchmark_throughput.cpp, `run_blocking`: both threads over the calls
--                         of Core.Blocking.Waiting.
--   Benchmarks.Percentile tests/benchmark_latency.cpp: the order statistics of
--                         `print_detailed_stats`.
--
-- How they interact: a generator's price becomes a tick, the producer thread pushes it into a ring,
-- the consumer thread pops it, has the builder make its message and the sender send it; the
-- analyzer's callback gets the payload of the captured packet, and the dashboard the datagram itself.
-- Programs.Feed joins system and analyzer, Dashboard.Shown system and dashboard; the systems use the
-- queue of Core.Queue for their ring, which the rings refine, and the two that have the lock-free ring
-- also stand over the ring itself, through the interface of Core.LockFree.Spsc.Client; the programs own
-- a system through that of Programs.Script.
--
-- What is left open, as a parameter: the arithmetic of `double` with the text that `std::format`
-- makes of one (Market.Double), what Python's `float` and `int` read of a text, the draws of the
-- random generators, the answers of the operating system and of libpcap, and the content of arrays
-- that nothing has been stored in. `size_t` and `uint64_t` are numbers below 2 ^ 64 that wrap. The
-- `int` that `std::accumulate` sums in is taken to wrap; it would overflow only beyond eight million
-- bytes. Sizes are taken as small enough for memory: a blocking ring's capacity is below 2 ^ 64 - 1.
--
-- Fuel: `digits` of Fix.Decimal divides by ten at most as often as the number plus one says, which is
-- enough, as reading its result shows. The reader of fields gets the number of fields. Nothing else
-- is bounded; the threads' loops are steps, and their ends are counted by `steps_left` of the
-- systems' Shutdown modules, by `work` of Programs.Ending and by that of Benchmarks.Transfer.Ends.
--
-- Not modelled: the lines that the producers print and what goes to standard error, how long the
-- programs sleep, `CVMonitor_` beyond the wait for a second or for the flag, data races on a
-- `std::condition_variable`, exceptions from memory that runs out or threads that cannot be made, so
-- the `catch` of the producers' `main`; `getQueue` and the getters of the two counters; the
-- drawing of the dashboard; of the programs in tests/ all but the two functions named above.
pub mod Prelude
pub mod Core
pub mod Fix
pub mod Network
pub mod Market
pub mod Programs
pub mod Dashboard
pub mod Benchmarks
