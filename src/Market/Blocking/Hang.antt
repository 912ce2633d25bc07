-- ===== src/Market/Blocking/Hang.antt =====
-- How `stop` of include/market/market_data_system_rw.h can wait for ever.
use fix_feed_simulator.Prelude.{
  ℕ, zero, suc, ◌≤◌, ◌≡◌, refl, ◌∙◌, arith, Bool, true, false, length, length-append,
}
use fix_feed_simulator.Core.Runs.{Run, none_yet, and_then}
use fix_feed_simulator.Market.Double.{Double}
use fix_feed_simulator.Market.Tick.{MarketTick}
use fix_feed_simulator.Market.Blocking.{
  capacity, Source, Producer, Consumer, Stopper, System, Step, produce, produce_end, push,
  count_generated, consume, consume_end, pop, check_stopped, check_running, send_test, send_stopped,
  send_throws, send_returns, count_sent, watch, watch_end, wait_over, wait_stopped, take_generated,
  take_sent, stop_flag, stop_push, start, Reach, here, later,
}

-- The flag is down, the consumer has returned, and both `stop` and the producer are in `push` on a
-- full queue.
pub record Hung {ℓ} {F W : Type ℓ} (s : System F W) (tick : MarketTick F) : Type ℓ where
  pub full : length s.queue ≡ capacity
  pub down : s.running ≡ false
  pub producer_in : s.producer ≡ Producer.pushing tick
  pub consumer_out : s.consumer ≡ Consumer.finished
  pub stopper_in : s.stopper ≡ Stopper.pushing

-- The producer has filled `n` places, and the consumer has not come to its loop yet.
record Filled {ℓ} {F W : Type ℓ} (n : ℕ) (s : System F W) : Type ℓ where
  count : length s.queue ≡ n
  up : s.running ≡ true
  producer_at : s.producer ≡ Producer.looping
  consumer_at : s.consumer ≡ Consumer.looping
  stopper_at : s.stopper ≡ Stopper.idle

module _ {ℓ} {F W : Type ℓ} (d : Double F) (rand_max : ℕ) (source : Source F W) (has_sender : Bool)
    (z : F) where
  fill :
      (n : ℕ) → n ≤ capacity → (s : System F W) × Reach d rand_max source has_sender s × Filled n s
  unfolding start
  fill zero h = (
    start d rand_max source has_sender,
    here,
    record { count = refl; up = refl; producer_at = refl; consumer_at = refl; stopper_at = refl },
  )
  fill (suc n) h =
      let (s, r, f) = fill n (omega arith) in
      (
        _,
        later
            (later (later r (produce z 0 0 f.producer_at f.up))
              (push _ refl (omega (arith, f.count))))
            (count_generated refl),
        record {
          count = length-append s.queue _ ∙ omega (arith, f.count);
          up = f.up;
          producer_at = refl;
          consumer_at = f.consumer_at;
          stopper_at = f.stopper_at;
        },
      )

  -- The step is one of the monitor's, which touch none of this.
  pub Step-Hung :
      {s t : System F W} {tick : MarketTick F}
      → Step d rand_max source s t
      → Hung s tick
      → Hung t tick
  Step-Hung (produce z' rand₁ rand₂ at go) h = ground arith
  Step-Hung (produce_end at go) h = ground arith
  Step-Hung (push tick' at room) h = ground arith
  Step-Hung (count_generated at) h = ground arith
  Step-Hung (consume at go) h = ground arith
  Step-Hung (consume_end at go) h = ground arith
  Step-Hung (pop tick' rest at e) h = ground arith
  Step-Hung (check_stopped tick' at go) h = ground arith
  Step-Hung (check_running tick' at go) h = ground arith
  Step-Hung (send_test message at go) h = ground arith
  Step-Hung (send_stopped message at go) h = ground arith
  Step-Hung (send_throws message answer at e) h = ground arith
  Step-Hung (send_returns message answer outcome at e ne) h = ground arith
  Step-Hung (count_sent at) h = ground arith
  Step-Hung (watch at go) h = ground arith
  Step-Hung (watch_end at go) h = ground arith
  Step-Hung (wait_over at go) h = ground arith
  Step-Hung (wait_stopped at go) h = ground arith
  Step-Hung (take_generated at) h = ground arith
  Step-Hung (take_sent at) h = ground arith
  Step-Hung (stop_flag at) h = ground arith
  Step-Hung (stop_push dummy at room) h = ground arith

  Run-Hung :
      {s t : System F W} {n : ℕ} {tick : MarketTick F}
      → Hung s tick
      → Run (Step d rand_max source) s n t
      → Hung t tick
  Run-Hung h none_yet = h
  Run-Hung h (and_then r st) = Step-Hung st (Run-Hung h r)

  -- Whatever the generator, the system can come to a state from which `stop` never returns: the
  -- producer has filled the queue, the flag has fallen before the consumer looked at it again, and
  -- from then on, whatever steps are taken, `stop` and the producer stay in a push into a full
  -- queue, and the consumer has returned.
  pub stop_hangs :
      (s : System F W) × (tick : MarketTick F) × Reach d rand_max source has_sender s
      × ((t : System F W) (n : ℕ)
          → Run (Step d rand_max source) s n t
          → (t.stopper ≡ Stopper.pushing)
            × (t.producer ≡ Producer.pushing tick)
            × (t.consumer ≡ Consumer.finished)
            × (length t.queue ≡ capacity))
  stop_hangs =
      let (s, r, f) = fill capacity (omega arith) in
      let hung : Hung _ _ = record {
        full = f.count;
        down = refl;
        producer_in = refl;
        consumer_out = refl;
        stopper_in = refl;
      } in
      (
        _,
        _,
        later (later (later r (produce z 0 0 f.producer_at f.up)) (stop_flag f.stopper_at))
            (consume_end f.consumer_at refl),
        λ t n run.
            let h = Run-Hung hung run in (h.stopper_in, h.producer_in, h.consumer_out, h.full),
      )
