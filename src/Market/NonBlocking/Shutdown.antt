-- ===== src/Market/NonBlocking/Shutdown.antt =====
-- After `stop`, the threads of include/market/market_data_system_rw_nonblocking.h end by themselves.
use fix_feed_simulator.Prelude.{ℕ, ◌+◌, ◌≤◌, ◌<◌, ◌≡◌, refl, arith, false, ◌⊎◌, inl, inr}
use fix_feed_simulator.Core.Runs.{Run, run_down}
use fix_feed_simulator.Network.Sender.{failed, hard, hard_error, send}
use fix_feed_simulator.Market.Double.{Double}
use fix_feed_simulator.Market.NonBlocking.{
  Producer, Consumer, Monitor, System, Step, produce, produce_end, push_ok, push_refused,
  push_again, push_abandon, count_generated, consume, consume_end, pop_refused, pop_ok, send_test,
  send_stopped, send_throws, send_returns, count_sent, watch, watch_end, wait_over, wait_stopped,
  take_generated, take_sent, stop,
}

-- How many steps a thread has left, at most, once the flag is down.
abbrev pub producer_left {ℓ} : {F : Type ℓ} → Producer F → ℕ
producer_left (Producer.pushing tick) = 3
producer_left (Producer.refused tick) = 1
producer_left Producer.counting = 2
producer_left Producer.looping = 1
producer_left Producer.finished = 0

abbrev pub consumer_left : Consumer → ℕ
consumer_left Consumer.polling = 5
consumer_left (Consumer.sending message) = 4
consumer_left (Consumer.retrying message) = 3
consumer_left Consumer.counting = 2
consumer_left Consumer.looping = 1
consumer_left Consumer.finished = 0

abbrev pub monitor_left : Monitor → ℕ
monitor_left Monitor.taking_generated = 3
monitor_left Monitor.taking_sent = 2
monitor_left Monitor.waiting = 1
monitor_left Monitor.looping = 1
monitor_left Monitor.finished = 0

abbrev pub steps_left {ℓ} : {F : Type ℓ} → System F → ℕ
steps_left s = producer_left s.producer + consumer_left s.consumer + monitor_left s.monitor

module _ {ℓ} {F : Type ℓ} (d : Double F) (rand_max : ℕ) where
  pub step_down :
      {s t : System F}
      → Step d rand_max s t
      → s.running ≡ false
      → (t.running ≡ false) × (steps_left t < steps_left s)
  step_down (produce z rand₁ rand₂ at go) off = ground arith
  step_down (produce_end at go) off = ground arith
  step_down (push_ok tick at room) off = ground arith
  step_down (push_refused tick at) off = ground arith
  step_down (push_again tick at go) off = ground arith
  step_down (push_abandon tick at go) off = ground arith
  step_down (count_generated at) off = ground arith
  step_down (consume at go) off = ground arith
  step_down (consume_end at go) off = ground arith
  step_down (pop_refused at) off = ground arith
  step_down (pop_ok tick rest at e) off = ground arith
  step_down (send_test message at go) off = ground arith
  step_down (send_stopped message at go) off = ground arith
  step_down (send_throws message answer at e) off = ground arith
  step_down (send_returns message answer outcome at e ne) off = ground arith
  step_down (count_sent at) off = ground arith
  step_down (watch at go) off = ground arith
  step_down (watch_end at go) off = ground arith
  step_down (wait_over at go) off = ground arith
  step_down (wait_stopped at go) off = ground arith
  step_down (take_generated at) off = ground arith
  step_down (take_sent at) off = ground arith
  step_down (stop go) off = ground arith

  module _ (s : System F) (off : s.running ≡ false) where
    abbrev CanStep : Type ℓ
    CanStep = (t : System F) × Step d rand_max s t

    producer_can : (p : Producer F) → s.producer ≡ p → (p ≡ Producer.finished) ⊎ CanStep
    producer_can Producer.looping at = inr (_, produce_end at off)
    producer_can (Producer.pushing tick) at = inr (_, push_refused tick at)
    producer_can (Producer.refused tick) at = inr (_, push_abandon tick at off)
    producer_can Producer.counting at = inr (_, count_generated at)
    producer_can Producer.finished at = inl refl

    consumer_can : (c : Consumer) → s.consumer ≡ c → (c ≡ Consumer.finished) ⊎ CanStep
    unfolding send
    consumer_can Consumer.looping at = inr (_, consume_end at off)
    consumer_can Consumer.polling at = inr (_, pop_refused at)
    consumer_can (Consumer.retrying message) at = inr (_, send_stopped message at off)
    consumer_can (Consumer.sending message) at =
        inr (_, send_returns message (failed hard) hard_error at refl (λ e. cc))
    consumer_can Consumer.counting at = inr (_, count_sent at)
    consumer_can Consumer.finished at = inl refl

    monitor_can : (m : Monitor) → s.monitor ≡ m → (m ≡ Monitor.finished) ⊎ CanStep
    monitor_can Monitor.looping at = inr (_, watch_end at off)
    monitor_can Monitor.waiting at = inr (_, wait_stopped at off)
    monitor_can Monitor.taking_generated at = inr (_, take_generated at)
    monitor_can Monitor.taking_sent at = inr (_, take_sent at)
    monitor_can Monitor.finished at = inl refl

    pub some_can :
        (s.producer ≡ Producer.finished)
          × (s.consumer ≡ Consumer.finished)
          × (s.monitor ≡ Monitor.finished)
        ⊎ CanStep
    some_can = elim (producer_can s.producer refl) [
      | inr can ↦ inr can
      | inl p ↦ elim (consumer_can s.consumer refl) [
        | inr can ↦ inr can
        | inl c ↦ elim (monitor_can s.monitor refl) [ inr can ↦ inr can | inl m ↦ inl (p, c, m) ]
      ]
    ]

  left_bound : (s : System F) → steps_left s ≤ 11
  left_bound s = ground arith

  -- Once `stop` has lowered the flag, the three threads take at most eleven more steps, in any order,
  -- and can go on until all of them have returned, whatever is in the queue and whatever
  -- `send` answers.
  pub shutdown :
      (s t : System F) (n : ℕ)
      → s.running ≡ false
      → Run (Step d rand_max) s n t
      → (n ≤ 11)
        × ((t.producer ≡ Producer.finished)
              × (t.consumer ≡ Consumer.finished)
              × (t.monitor ≡ Monitor.finished)
            ⊎ ((u : System F) × Step d rand_max t u))
  shutdown s t n off r =
      let (still_off, used) =
        run_down (Step d rand_max) steps_left (λ s. s.running ≡ false)
          (λ s t st off. step_down st off) r off in
      (omega (arith, used, left_bound s), some_can t still_off)
