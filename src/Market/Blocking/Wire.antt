-- ===== src/Market/Blocking/Wire.antt =====
-- What is on the wire of include/market/market_data_system_rw.h and market_data_system_gbm.h, as a
-- receiver reads it, the dummy tick of `stop` in the queue or not.
use fix_feed_simulator.Prelude.{ℕ, refl, Bool}
use fix_feed_simulator.Fix.Message.{soh}
use fix_feed_simulator.Fix.RoundTrip.{Lacks}
use fix_feed_simulator.Market.Double.{Double}
use fix_feed_simulator.Market.Wire.{Tells, make_tick-Proper, nothing, after_send}
use fix_feed_simulator.Market.Blocking.Sending.{
  Sound, producer_at, consumer_at, producer_moves, consumer_moves, queue_grows, tick_taken,
  tick_read, tick_unread, told_so_far, flag_falls,
}
use fix_feed_simulator.Market.Blocking.Invariant.{Inv, Reach-Inv}
use fix_feed_simulator.Market.Blocking.{
  Source, Producer, Consumer, System, Step, produce, produce_end, push, count_generated, consume,
  consume_end, pop, check_stopped, check_running, send_test, send_stopped, send_throws,
  send_returns, count_sent, watch, watch_end, wait_over, wait_stopped, take_generated, take_sent,
  stop_flag, stop_push, start, Reach, here, later,
}

module _ {ℓ} {F W : Type ℓ} (d : Double F) (format_clean : (x : F) → Lacks soh (d.format2 x)) where
  abbrev SoundOf : System F W → Type ℓ
  SoundOf s = Sound d s.running s.builder s.queue s.producer s.consumer s.popped s.wire

  module _ (rand_max : ℕ) (source : Source F W) where
    Step-Sound : {s t : System F W} → Step d rand_max source s t → Inv s → SoundOf s → SoundOf t
    Step-Sound {s} (produce z rand₁ rand₂ at go) inv w =
        producer_moves d w _ (make_tick-Proper d _ rand_max rand₁ rand₂)
    Step-Sound {s} (produce_end at go) inv w = producer_moves d w _ tt
    Step-Sound {s} (push tick at room) inv w =
        queue_grows d w tick _ (λ raised. producer_at d w (Producer.pushing tick) at) tt
    Step-Sound {s} (count_generated at) inv w = producer_moves d w _ tt
    Step-Sound {s} (consume at go) inv w = consumer_moves d w _ _ (told_so_far d w)
    Step-Sound {s} (consume_end at go) inv w = consumer_moves d w _ _ (told_so_far d w)
    Step-Sound {s} (pop tick rest at front) inv w = tick_taken d tick rest w at front
    Step-Sound {s} (check_stopped tick at off) inv w =
        consumer_moves d w _ _ (tick_unread d tick w at)
    Step-Sound {s} (check_running tick at on) inv w =
        tick_read d format_clean s.has_sender tick w at on
    Step-Sound {s} (send_test message at go) inv w =
        consumer_moves d w _ _ (consumer_at d w (Consumer.retrying message) at)
    Step-Sound {s} (send_stopped message at go) inv w = consumer_moves d w _ _ (told_so_far d w)
    Step-Sound {s} (send_throws message answer at e) inv w =
        consumer_moves d w _ _ (consumer_at d w (Consumer.sending message) at)
    Step-Sound {s} (send_returns message answer outcome at e ne) inv w = consumer_moves d w _ _ (
        after_send d outcome s.popped s.wire message
          (consumer_at d w (Consumer.sending message) at))
    Step-Sound {s} (count_sent at) inv w = consumer_moves d w _ _ (told_so_far d w)
    Step-Sound {s} (watch at go) inv w = w
    Step-Sound {s} (watch_end at go) inv w = w
    Step-Sound {s} (wait_over at go) inv w = w
    Step-Sound {s} (wait_stopped at go) inv w = w
    Step-Sound {s} (take_generated at) inv w = w
    Step-Sound {s} (take_sent at) inv w = w
    Step-Sound {s} (stop_flag at) inv w = flag_falls d w
    Step-Sound {s} (stop_push dummy at room) inv w =
        queue_grows d w dummy _ (λ raised. let idle = inv.flag_down raised in cc) w.producer_ok

    Reach-Sound :
        {has_sender : Bool} {s : System F W} → Reach d rand_max source has_sender s → SoundOf s
    Reach-Sound here =
        unfold start in
        record { begin = refl; queue_ok = λ raised. tt; producer_ok = tt; consumer_ok = nothing }
    Reach-Sound (later r st) = Step-Sound st (Reach-Inv d rand_max source r) (Reach-Sound r)

    -- In every reachable state, whatever the generator, each message on the wire is the one that a
    -- builder makes of a tick that was popped, and is read by a receiver as its snapshot, no tick
    -- is told twice, and they are told in the order in which they were popped; if the text of a
    -- price has no separator.
    pub told_blocking :
        {has_sender : Bool} {s : System F W}
        → Reach d rand_max source has_sender s
        → Tells d s.popped s.wire
    told_blocking r = told_so_far d (Reach-Sound r)
