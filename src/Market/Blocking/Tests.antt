-- ===== src/Market/Blocking/Tests.antt =====
-- The hang of `stop`, its ordinary end, and a message on the wire, with the concrete arithmetic.
use fix_feed_simulator.Prelude.{ℕ, ◌+◌, ◌++◌, ◌≤◌, ◌≡◌, ◌≢◌, refl, arith, [], true, length, ◌⊎◌}
use fix_feed_simulator.Prelude.Bytes.{ℤ, pos}
use fix_feed_simulator.Core.Runs.{Run, none_yet, and_then}
use fix_feed_simulator.Network.Sender.{sent, complete, throws}
use fix_feed_simulator.Network.Sender.Sending.{send_lem}
use fix_feed_simulator.Market.Cents.{cents, cents_clean}
use fix_feed_simulator.Market.Wire.{Tells}
use fix_feed_simulator.Market.Blocking.Wire.{told_blocking}
use fix_feed_simulator.Market.Tick.{MarketTick}
use fix_feed_simulator.Market.RandomWalk.{Walk}
use fix_feed_simulator.Market.Blocking.{
  capacity, random_walk, Producer, Consumer, Stopper, System, Step, produce, push, consume, pop,
  check_running, send_test, send_returns, stop_flag, stop_push, start, Reach, here, later,
}
use fix_feed_simulator.Market.NonBlocking.Counting.{Same64}
use fix_feed_simulator.Market.Blocking.Counting.{
  uncounted_push, unsettled, uncounted_send, dummies, blocking_accounted,
}
use fix_feed_simulator.Market.Blocking.Hang.{stop_hangs}
use fix_feed_simulator.Market.Blocking.Shutdown.{Ended, StuckFull, stop_ends}

stop_hangs_example :
    (s : System ℤ (Walk ℤ)) × (tick : MarketTick ℤ) × Reach cents 32767 (random_walk cents) true s
    × ((t : System ℤ (Walk ℤ)) (n : ℕ)
        → Run (Step cents 32767 (random_walk cents)) s n t
        → (t.stopper ≡ Stopper.pushing)
          × (t.producer ≡ Producer.pushing tick)
          × (t.consumer ≡ Consumer.finished)
          × (length t.queue ≡ capacity))
stop_hangs_example = stop_hangs cents 32767 (random_walk cents) true (pos 1)

complete_ne_throws : complete ≢ throws
complete_ne_throws e = cc

abbrev dummy : MarketTick ℤ
dummy = record { symbol = []; bid = pos 0; ask = pos 0; bid_size = 0; ask_size = 0 }

record Stopping : Type 0 where
  last : System ℤ (Walk ℤ)
  reach : Reach cents 32767 (random_walk cents) true last

-- `stop` is called while one tick is queued and the consumer is in `pop`.
stopping : Stopping
unfolding start
stopping = record {
  last = _;
  reach =
      later
        (later (later (later here (produce (pos 1) 0 27 refl refl)) (push _ refl (omega arith)))
          (consume refl refl))
        (stop_flag refl);
}

-- `stop` pushes its dummy tick.
record Pushed : Type 0 where
  after : System ℤ (Walk ℤ)
  run : Run (Step cents 32767 (random_walk cents)) stopping.last 1 after

pushed : Pushed
unfolding stopping
pushed = record { after = _; run = and_then none_yet (stop_push dummy refl (omega arith)) }

stop_ends_example :
    let t = pushed.after in
    (1 ≤ 11)
    × (Ended t ⊎ ((u : System ℤ (Walk ℤ)) × Step cents 32767 (random_walk cents) t u) ⊎ StuckFull t)
unfolding stopping
stop_ends_example =
    stop_ends cents 32767 (random_walk cents) stopping.last pushed.after 1 dummy stopping.reach refl
      pushed.run

blocking_accounted_example :
    let s = stopping.last in
    (s.pushed ≡ s.popped ++ s.queue)
    × (length s.queue ≤ capacity)
    × Same64
        (s.reported_generated + s.ticks_generated + uncounted_push s.producer + dummies s.stopper)
        (length s.pushed)
    × (length s.popped ≡ length s.wire + s.given_up + s.unread + unsettled s.consumer)
    × Same64
        (s.reported_sent + s.ticks_sent + uncounted_send s.consumer)
        (length s.wire + s.given_up)
blocking_accounted_example = blocking_accounted cents 32767 (random_walk cents) stopping.reach

-- A tick is popped and looked at while the flag is up, and its message is sent.
abbrev told_one : Stopping
unfolding start
told_one = record {
  last = _;
  reach =
      later
        (later
          (later
            (later
              (later
                (later (later here (produce (pos 1) 0 27 refl refl)) (push _ refl (omega arith)))
                (consume refl refl))
              (pop _ [] refl refl))
            (check_running _ refl refl))
          (send_test _ refl refl))
        (send_returns _ (sent _) complete refl ((send_lem _ (sent _)).1.1 refl) complete_ne_throws);
}

one_told : Tells cents told_one.last.popped told_one.last.wire
one_told = told_blocking cents cents_clean 32767 (random_walk cents) told_one.reach
