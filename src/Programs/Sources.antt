-- ===== src/Programs/Sources.antt =====
-- The wire of any of the four systems of include/market/, for what is done with its messages.
use fix_feed_simulator.Prelude.{ℕ, ◌≡◌, List, Bool, length}
use fix_feed_simulator.Prelude.Bytes.{Bytes}
use fix_feed_simulator.Fix.Message.{soh}
use fix_feed_simulator.Fix.RoundTrip.{Lacks}
use fix_feed_simulator.Market.Double.{Double}
use fix_feed_simulator.Market.Tick.{MarketTick}
use fix_feed_simulator.Market.RandomWalk.{Walk}
use fix_feed_simulator.Market.Wire.{Tells}
use fix_feed_simulator.Market.NonBlocking as NonBlocking
use fix_feed_simulator.Market.NonBlocking.Wire.{wire-Tells}
use fix_feed_simulator.Core.LockFree.Spsc.Client.{Whole, Joined}
use fix_feed_simulator.Market.NonBlocking.OverRing.{waits_for_room, ring_refines}
use fix_feed_simulator.Market.BrownianNonBlocking.OverRing.{drops_when_full, brownian_ring_refines}
use fix_feed_simulator.Market.Blocking as Blocking
use fix_feed_simulator.Market.Blocking.Wire.{told_blocking}
use fix_feed_simulator.Market.BrownianBlocking as BrownianBlocking
use fix_feed_simulator.Market.BrownianBlocking.{brownian_motion}
use fix_feed_simulator.Market.BrownianNonBlocking as BrownianNonBlocking
use fix_feed_simulator.Market.BrownianNonBlocking.Wire.{told_brownian}

module _ {ℓ} {F : Type ℓ} (d : Double F) (rand_max : ℕ) where
  -- The ticks that a system has popped so far, and the messages that it has put on the wire.
  pub data Emitted : List (MarketTick F) → List Bytes → Type ℓ where
    from_rw_nonblocking :
        {has_sender : Bool} {s : NonBlocking.System F}
        → NonBlocking.Reach d rand_max has_sender s
        → Emitted s.popped s.wire
    -- Over the lock-free ring itself.
    from_rw_lock_free :
        {storage : List (MarketTick F)} (has_sender : Bool)
        {s : Whole (MarketTick F) (NonBlocking.System F)}
        → length storage ≡ NonBlocking.capacity
        → Joined NonBlocking.capacity
            (waits_for_room d rand_max)
            storage
            (NonBlocking.start d rand_max has_sender)
            s
        → Emitted s.system.popped s.system.wire
    from_rw :
        {has_sender : Bool} {s : Blocking.System F (Walk F)}
        → Blocking.Reach d rand_max (Blocking.random_walk d) has_sender s
        → Emitted s.popped s.wire
    from_gbm :
        {has_sender : Bool} {s : BrownianBlocking.System d}
        → BrownianBlocking.Reach d rand_max has_sender s
        → Emitted s.popped s.wire
    from_gbm_nonblocking :
        {has_sender : Bool} {s : BrownianNonBlocking.System F}
        → BrownianNonBlocking.Reach d rand_max has_sender s
        → Emitted s.popped s.wire
    from_gbm_lock_free :
        {storage : List (MarketTick F)} (has_sender : Bool)
        {s : Whole (MarketTick F) (BrownianNonBlocking.System F)}
        → length storage ≡ BrownianNonBlocking.capacity
        → Joined BrownianNonBlocking.capacity
            (drops_when_full d rand_max)
            storage
            (BrownianNonBlocking.start d rand_max has_sender)
            s
        → Emitted s.system.popped s.system.wire

  -- In every reachable state of any of the four systems, and of the two nonblocking ones over the
  -- lock-free ring itself with an array of its capacity, each message on the wire is the one that a builder makes of
  -- a tick that was popped, and is read by a receiver as its snapshot, no tick is told twice, and
  -- they are told in the order in which they were popped; if the text of a price has no separator.
  pub Emitted-Tells :
      {ticks : List (MarketTick F)} {wire : List Bytes}
      → ((x : F) → Lacks soh (d.format2 x))
      → Emitted ticks wire
      → Tells d ticks wire
  Emitted-Tells clean (from_rw_nonblocking reach) = wire-Tells d clean rand_max reach
  Emitted-Tells clean (from_rw_lock_free {storage} has_sender whole joined) =
      wire-Tells d clean rand_max (ring_refines d rand_max storage has_sender whole joined).2
  Emitted-Tells clean (from_rw reach) =
      told_blocking d clean rand_max (Blocking.random_walk d) reach
  Emitted-Tells clean (from_gbm reach) = told_blocking d clean rand_max (brownian_motion d) reach
  Emitted-Tells clean (from_gbm_nonblocking reach) = told_brownian d clean rand_max reach
  Emitted-Tells clean (from_gbm_lock_free {storage} has_sender whole joined) =
      told_brownian d clean rand_max
        (brownian_ring_refines d rand_max storage has_sender whole joined).2
