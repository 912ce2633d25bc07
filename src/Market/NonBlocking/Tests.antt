-- ===== src/Market/NonBlocking/Tests.antt =====
-- A run of the nonblocking system with the concrete arithmetic: a tick is made, queued, taken, sent
-- and counted, and the monitor takes the count.
use fix_feed_simulator.Prelude.{◌+◌, ◌≤◌, ◌≡◌, ◌≢◌, refl, arith, [], true, length, ◌⊎◌, inr}
use fix_feed_simulator.Prelude.Bytes.{Bytes, ℤ, pos}
use fix_feed_simulator.Network.Sender.{sent, complete, throws}
use fix_feed_simulator.Network.Sender.Sending.{send_lem}
use fix_feed_simulator.Core.Runs.{Run as StepRun, none_yet, and_then}
use fix_feed_simulator.Market.Cents.{cents, cents_clean}
use fix_feed_simulator.Market.NonBlocking.{
  Producer, Consumer, Monitor, System, Step, produce, produce_end, push_ok, count_generated,
  consume, pop_ok, send_test, send_returns, watch, wait_over, take_generated, stop, start, Reach,
  here, later,
}
use fix_feed_simulator.Market.NonBlocking.Counting.{unsettled, uncounted_send, Same64, sent_counts}
use fix_feed_simulator.Market.Wire.{Tells}
use fix_feed_simulator.Market.NonBlocking.Wire.{wire-Tells}
use fix_feed_simulator.Market.NonBlocking.Span.{span_valid}
use fix_feed_simulator.Market.NonBlocking.Shutdown.{shutdown}

record Run : Type 0 where
  last : System ℤ
  reach : Reach cents 32767 true last

-- One tick is queued and counted, and the consumer is about to take it.
abbrev queued : Run
unfolding start
queued = record {
  last = _;
  reach =
      later
        (later (later (later here (produce (pos 1) 0 27 refl refl)) (push_ok _ refl (omega arith)))
          (count_generated refl))
        (consume refl refl);
}

complete_ne_throws : complete ≢ throws
complete_ne_throws e = cc

-- It is taken and its message sent, and the monitor has taken the first count.
abbrev sent_one : Run
unfolding start queued
sent_one = record {
  last = _;
  reach =
      later
        (later
          (later
            (later (later (later queued.reach (pop_ok _ [] refl refl)) (send_test _ refl refl)) (
              send_returns _ (sent _) complete refl ((send_lem _ (sent _)).1.1 refl)
                complete_ne_throws))
            (watch refl refl))
          (wait_over refl refl))
        (take_generated refl);
}

-- The flag falls while a tick is in the queue.
abbrev stopping : Run
unfolding queued
stopping = record { last = _; reach = later queued.reach (stop refl) }

sent_counts_example :
    let s = sent_one.last in
    Same64
      (s.reported_sent + s.ticks_sent + uncounted_send s.consumer)
      (length s.wire + s.given_up + unsettled s.consumer)
sent_counts_example = sent_counts cents 32767 sent_one.reach

one_told : Tells cents sent_one.last.popped sent_one.last.wire
one_told = wire-Tells cents cents_clean 32767 sent_one.reach

-- The producer comes to its loop and leaves it.
record Ending : Type 0 where
  after : System ℤ
  run : StepRun (Step cents 32767) stopping.last 1 after

ending : Ending
unfolding stopping
ending = record { after = _; run = and_then none_yet (produce_end refl refl) }

shutdown_example :
    let t = ending.after in
    (1 ≤ 11)
    × ((t.producer ≡ Producer.finished)
          × (t.consumer ≡ Consumer.finished)
          × (t.monitor ≡ Monitor.finished)
        ⊎ ((u : System ℤ) × Step cents 32767 t u))
unfolding stopping
shutdown_example = shutdown cents 32767 stopping.last ending.after 1 refl ending.run

record Sending : Type 0 where
  last : System ℤ
  reach : Reach cents 32767 true last
  message : Bytes
  at : last.consumer ≡ Consumer.sending message

-- Its message is made, and the flag is up at the test of the sending loop.
sending_one : Sending
unfolding queued
sending_one = record {
  last = _;
  reach = later (later queued.reach (pop_ok _ [] refl refl)) (send_test _ refl refl);
  message = _;
  at = refl;
}

span_valid_example : sending_one.last.builder.final_message_buffer ≡ sending_one.message
span_valid_example =
    span_valid cents 32767 sending_one.message sending_one.reach (inr sending_one.at)
