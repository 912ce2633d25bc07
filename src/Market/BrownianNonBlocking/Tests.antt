-- ===== src/Market/BrownianNonBlocking/Tests.antt =====
-- A run of the system that drops ticks, with the concrete arithmetic: a tick is queued and taken, a
-- second one dropped, and `stop` comes before the first is looked at.
use fix_feed_simulator.Prelude.{◌+◌, ◌≤◌, ◌≡◌, ◌≢◌, refl, arith, [], ◌++◌, true, length, ◌⊎◌}
use fix_feed_simulator.Prelude.Bytes.{ℤ, pos}
use fix_feed_simulator.Core.Runs.{Run as StepRun, none_yet, and_then}
use fix_feed_simulator.Network.Sender.{sent, complete, throws}
use fix_feed_simulator.Network.Sender.Sending.{send_lem}
use fix_feed_simulator.Market.Cents.{cents, cents_clean}
use fix_feed_simulator.Market.Wire.{Tells}
use fix_feed_simulator.Market.BrownianNonBlocking.Wire.{told_brownian}
use fix_feed_simulator.Market.Blocking.{Producer, Consumer}
use fix_feed_simulator.Market.NonBlocking.{Monitor}
use fix_feed_simulator.Market.NonBlocking.Counting.{Same64}
use fix_feed_simulator.Market.BrownianNonBlocking.{
  capacity, System, Step, produce, produce_end, push_ok, push_refused, count_generated, consume,
  pop_ok, check_running, send_test, send_returns, stop, start, Reach, here, later,
}
use fix_feed_simulator.Market.Blocking.Counting.{uncounted_push}
use fix_feed_simulator.Market.BrownianNonBlocking.Counting.{in_hand, ticks_accounted}
use fix_feed_simulator.Market.BrownianNonBlocking.Shutdown.{brownian_shutdown}

record Run : Type 0 where
  last : System ℤ
  reach : Reach cents 32767 true last

stopping : Run
unfolding start
stopping = record {
  last = _;
  reach =
      later
        (later
          (later
            (later
              (later
                (later
                  (later (later here (produce (pos 1) 0 27 refl refl))
                    (push_ok _ refl (omega arith)))
                  (count_generated refl))
                (consume refl refl))
              (pop_ok _ [] refl refl))
            (produce (pos 1) 5 6 refl refl))
          (push_refused _ refl))
        (stop refl);
}

ticks_accounted_example :
    let s = stopping.last in
    (s.made ≡ length s.pushed + s.dropped + in_hand s.producer)
    × (s.pushed ≡ s.popped ++ s.queue)
    × (length s.queue ≤ capacity)
    × Same64
        (s.reported_generated + s.ticks_generated + uncounted_push s.producer)
        (length s.pushed)
ticks_accounted_example = ticks_accounted cents 32767 stopping.reach

-- The producer comes to its loop and leaves it.
record Ending : Type 0 where
  after : System ℤ
  run : StepRun (Step cents 32767) stopping.last 1 after

ending : Ending
unfolding stopping
ending = record { after = _; run = and_then none_yet (produce_end refl refl) }

brownian_shutdown_example :
    let t = ending.after in
    (1 ≤ 10)
    × ((t.producer ≡ Producer.finished)
          × (t.consumer ≡ Consumer.finished)
          × (t.monitor ≡ Monitor.finished)
        ⊎ ((u : System ℤ) × Step cents 32767 t u))
unfolding stopping
brownian_shutdown_example =
    brownian_shutdown cents 32767 stopping.last ending.after 1 refl ending.run

complete_ne_throws : complete ≢ throws
complete_ne_throws e = cc

-- A tick is popped and looked at while the flag is up, and its message is sent.
abbrev told_one : Run
unfolding start
told_one = record {
  last = _;
  reach =
      later
        (later
          (later
            (later
              (later
                (later (later here (produce (pos 1) 0 27 refl refl)) (push_ok _ refl (omega arith)))
                (consume refl refl))
              (pop_ok _ [] refl refl))
            (check_running _ refl refl))
          (send_test _ refl refl))
        (send_returns _ (sent _) complete refl ((send_lem _ (sent _)).1.1 refl) complete_ne_throws);
}

one_told : Tells cents told_one.last.popped told_one.last.wire
one_told = told_brownian cents cents_clean 32767 told_one.reach
