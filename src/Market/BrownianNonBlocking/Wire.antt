-- ===== src/Market/BrownianNonBlocking/Wire.antt =====
-- What is on the wire of include/market/market_data_system_gbm_nonblocking.h, as a receiver reads it.
use fix_feed_simulator.Prelude.{ℕ, refl, Bool}
use fix_feed_simulator.Fix.Message.{soh}
use fix_feed_simulator.Fix.RoundTrip.{Lacks}
use fix_feed_simulator.Market.Double.{Double}
use fix_feed_simulator.Market.Wire.{Tells, make_tick-Proper, nothing, after_send}
use fix_feed_simulator.Market.Blocking.Sending.{
  Sound, producer_at, consumer_at, producer_moves, consumer_moves, queue_grows, tick_taken,
  tick_read, tick_unread, told_so_far, flag_falls,
}
use fix_feed_simulator.Market.Blocking.{Producer, Consumer}
use fix_feed_simulator.Market.BrownianNonBlocking.{
  System, Step, produce, produce_end, push_ok, push_refused, count_generated, consume, consume_end,
  pop_refused, pop_ok, check_stopped, check_running, send_test, send_stopped, send_throws,
  send_returns, count_sent, watch, watch_end, wait_over, wait_stopped, take_generated, take_sent,
  stop, start, Reach, here, later,
}

module _ {ℓ} {F : Type ℓ} (d : Double F) (format_clean : (x : F) → Lacks soh (d.format2 x)) where
  abbrev SoundOf : System F → Type ℓ
  SoundOf s = Sound d s.running s.builder s.queue s.producer s.consumer s.popped s.wire

  module _ (rand_max : ℕ) where
    Step-Sound : {s t : System F} → Step d rand_max s t → SoundOf s → SoundOf t
    Step-Sound {s} (produce z rand₁ rand₂ at go) w =
        producer_moves d w _ (make_tick-Proper d _ rand_max rand₁ rand₂)
    Step-Sound {s} (produce_end at go) w = producer_moves d w _ tt
    Step-Sound {s} (push_ok tick at room) w =
        queue_grows d w tick _ (λ raised. producer_at d w (Producer.pushing tick) at) tt
    Step-Sound {s} (push_refused tick at) w = producer_moves d w _ tt
    Step-Sound {s} (count_generated at) w = producer_moves d w _ tt
    Step-Sound {s} (consume at go) w = consumer_moves d w _ _ (told_so_far d w)
    Step-Sound {s} (consume_end at go) w = consumer_moves d w _ _ (told_so_far d w)
    Step-Sound {s} (pop_refused at) w = consumer_moves d w _ _ (told_so_far d w)
    Step-Sound {s} (pop_ok tick rest at front) w = tick_taken d tick rest w at front
    Step-Sound {s} (check_stopped tick at off) w = consumer_moves d w _ _ (tick_unread d tick w at)
    Step-Sound {s} (check_running tick at on) w = tick_read d format_clean s.has_sender tick w at on
    Step-Sound {s} (send_test message at go) w =
        consumer_moves d w _ _ (consumer_at d w (Consumer.retrying message) at)
    Step-Sound {s} (send_stopped message at go) w = consumer_moves d w _ _ (told_so_far d w)
    Step-Sound {s} (send_throws message answer at e) w =
        consumer_moves d w _ _ (consumer_at d w (Consumer.sending message) at)
    Step-Sound {s} (send_returns message answer outcome at e ne) w = consumer_moves d w _ _ (
        after_send d outcome s.popped s.wire message
          (consumer_at d w (Consumer.sending message) at))
    Step-Sound {s} (count_sent at) w = consumer_moves d w _ _ (told_so_far d w)
    Step-Sound {s} (watch at go) w = w
    Step-Sound {s} (watch_end at go) w = w
    Step-Sound {s} (wait_over at go) w = w
    Step-Sound {s} (wait_stopped at go) w = w
    Step-Sound {s} (take_generated at) w = w
    Step-Sound {s} (take_sent at) w = w
    Step-Sound {s} (stop go) w = flag_falls d w

    Reach-Sound : {has_sender : Bool} {s : System F} → Reach d rand_max has_sender s → SoundOf s
    Reach-Sound here =
        unfold start in
        record { begin = refl; queue_ok = λ raised. tt; producer_ok = tt; consumer_ok = nothing }
    Reach-Sound (later r st) = Step-Sound st (Reach-Sound r)

    -- In every reachable state each message on the wire is the one that a builder makes of a tick
    -- that was popped, and is read by a receiver as its snapshot, no tick is told twice, and they
    -- are told in the order in which they were popped; if the text of a price has no separator.
    pub told_brownian :
        {has_sender : Bool} {s : System F} → Reach d rand_max has_sender s → Tells d s.popped s.wire
    told_brownian r = told_so_far d (Reach-Sound r)
