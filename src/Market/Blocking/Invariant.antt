-- ===== src/Market/Blocking/Invariant.antt =====
-- The flag, the queue and the dummy tick of include/market/market_data_system_rw.h, in every state.
use fix_feed_simulator.Prelude.{ℕ, ◌≤◌, ◌<◌, ◌≡◌, arith, [], ◌∷◌, Bool, true, length, length-append}
use fix_feed_simulator.Market.Double.{Double}
use fix_feed_simulator.Market.Blocking.{
  capacity, Source, Consumer, Stopper, System, Step, produce, produce_end, push, count_generated,
  consume, consume_end, pop, check_stopped, check_running, send_test, send_stopped, send_throws,
  send_returns, count_sent, watch, watch_end, wait_over, wait_stopped, take_generated, take_sent,
  stop_flag, stop_push, start, Reach, here, later,
}

-- The dummy tick is still there for a consumer that waits for it.
pub record Inv {ℓ} {F W : Type ℓ} (s : System F W) : Type ℓ where
  pub room : length s.queue ≤ capacity
  pub flag_up : s.stopper ≡ Stopper.idle → s.running ≡ true
  pub flag_down : s.running ≡ true → s.stopper ≡ Stopper.idle
  pub dummy : s.stopper ≡ Stopper.returned → s.consumer ≡ Consumer.polling → 0 < length s.queue

module _ {ℓ} {F W : Type ℓ} (d : Double F) (rand_max : ℕ) (source : Source F W) where
  pub Step-Inv : {s t : System F W} → Step d rand_max source s t → Inv s → Inv t
  Step-Inv {s} (produce z rand₁ rand₂ at go) inv = ground arith
  Step-Inv {s} (produce_end at go) inv = ground arith
  Step-Inv {s} (push tick at room) inv = ground (arith, length-append s.queue (tick ∷ []))
  Step-Inv {s} (count_generated at) inv = ground arith
  Step-Inv {s} (consume at go) inv = ground arith
  Step-Inv {s} (consume_end at go) inv = ground arith
  Step-Inv {s} (pop tick rest at e) inv = ground arith
  Step-Inv {s} (check_stopped tick at off) inv = ground arith
  Step-Inv {s} (check_running tick at on) inv = ground arith
  Step-Inv {s} (send_test message at go) inv = ground arith
  Step-Inv {s} (send_stopped message at go) inv = ground arith
  Step-Inv {s} (send_throws message answer at e) inv = ground arith
  Step-Inv {s} (send_returns message answer outcome at e ne) inv = ground arith
  Step-Inv {s} (count_sent at) inv = ground arith
  Step-Inv {s} (watch at go) inv = ground arith
  Step-Inv {s} (watch_end at go) inv = ground arith
  Step-Inv {s} (wait_over at go) inv = ground arith
  Step-Inv {s} (wait_stopped at go) inv = ground arith
  Step-Inv {s} (take_generated at) inv = ground arith
  Step-Inv {s} (take_sent at) inv = ground arith
  Step-Inv {s} (stop_flag at) inv = ground arith
  Step-Inv {s} (stop_push dummy at room) inv = ground (arith, length-append s.queue (dummy ∷ []))

  pub Reach-Inv :
      {has_sender : Bool} {s : System F W} → Reach d rand_max source has_sender s → Inv s
  Reach-Inv here = unfold start in ground arith
  Reach-Inv (later r st) = Step-Inv st (Reach-Inv r)
