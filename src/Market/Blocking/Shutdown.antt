-- ===== src/Market/Blocking/Shutdown.antt =====
-- After `stop` has lowered the flag, the threads of include/market/market_data_system_rw.h end, unless
-- the queue is full and nobody empties it.
use fix_feed_simulator.Prelude.{
  ℕ, ◌+◌, ◌≤◌, ◌<◌, ◌≡◌, refl, ap, arith, List, [], ◌∷◌, Bool, false, Bool-cases, length, ltb,
  ltb→lt, ltb→le, ◌⊎◌, inl, inr,
}
use fix_feed_simulator.Core.Runs.{Run, run_down}
use fix_feed_simulator.Network.Sender.{failed, hard, hard_error, send}
use fix_feed_simulator.Market.Double.{Double}
use fix_feed_simulator.Market.Tick.{MarketTick}
use fix_feed_simulator.Market.NonBlocking.{Monitor}
use fix_feed_simulator.Market.NonBlocking.Shutdown.{monitor_left}
use fix_feed_simulator.Market.Blocking.{
  capacity, Source, Producer, Consumer, Stopper, System, Step, produce, produce_end, push,
  count_generated, consume, consume_end, pop, check_stopped, check_running, send_test, send_stopped,
  send_throws, send_returns, count_sent, watch, watch_end, wait_over, wait_stopped, take_generated,
  take_sent, stop_flag, stop_push, Reach,
}
use fix_feed_simulator.Market.Blocking.Invariant.{Inv, Step-Inv, Reach-Inv}

-- How many steps a thread has left, at most, once the flag is down.
abbrev pub producer_left {ℓ} : {F : Type ℓ} → Producer F → ℕ
producer_left (Producer.pushing tick) = 3
producer_left Producer.counting = 2
producer_left Producer.looping = 1
producer_left Producer.finished = 0

abbrev pub consumer_left {ℓ} : {F : Type ℓ} → Consumer F → ℕ
consumer_left (Consumer.sending message) = 4
consumer_left (Consumer.retrying message) = 3
consumer_left Consumer.counting = 2
consumer_left Consumer.polling = 2
consumer_left (Consumer.checking tick) = 1
consumer_left Consumer.looping = 1
consumer_left Consumer.finished = 0

abbrev pub stopper_left : Stopper → ℕ
stopper_left Stopper.idle = 2
stopper_left Stopper.pushing = 1
stopper_left Stopper.returned = 0

abbrev pub steps_left {ℓ} : {F W : Type ℓ} → System F W → ℕ
steps_left s =
    producer_left s.producer
    + consumer_left s.consumer
    + monitor_left s.monitor
    + stopper_left s.stopper

-- All four are at their end.
abbrev pub Ended {ℓ} : {F W : Type ℓ} → System F W → Type ℓ
Ended s =
    (s.producer ≡ Producer.finished)
    × (s.consumer ≡ Consumer.finished)
    × (s.monitor ≡ Monitor.finished)
    × (s.stopper ≡ Stopper.returned)

-- The queue is full, and the only thread that takes from it has returned.
abbrev pub StuckFull {ℓ} : {F W : Type ℓ} → System F W → Type ℓ
StuckFull s = (length s.queue ≡ capacity) × (s.consumer ≡ Consumer.finished)

module _ {ℓ} {F W : Type ℓ} (d : Double F) (rand_max : ℕ) (source : Source F W) where
  pub step_down :
      {s t : System F W}
      → Step d rand_max source s t
      → s.running ≡ false
      → (t.running ≡ false) × (steps_left t < steps_left s)
  step_down (produce z rand₁ rand₂ at go) off = ground arith
  step_down (produce_end at go) off = ground arith
  step_down (push tick at room) off = ground arith
  step_down (count_generated at) off = ground arith
  step_down (consume at go) off = ground arith
  step_down (consume_end at go) off = ground arith
  step_down (pop tick rest at e) off = ground arith
  step_down (check_stopped tick at go) off = ground arith
  step_down (check_running tick at go) off = ground arith
  step_down (send_test message at go) off = ground arith
  step_down (send_stopped message at go) off = ground arith
  step_down (send_throws message answer at e) off = ground arith
  step_down (send_returns message answer outcome at e ne) off = ground arith
  step_down (count_sent at) off = ground arith
  step_down (watch at go) off = ground arith
  step_down (watch_end at go) off = ground arith
  step_down (wait_over at go) off = ground arith
  step_down (wait_stopped at go) off = ground arith
  step_down (take_generated at) off = ground arith
  step_down (take_sent at) off = ground arith
  step_down (stop_flag at) off = ground arith
  step_down (stop_push dummy at room) off = ground arith

  module _ (s : System F W) (inv : Inv s) (off : s.running ≡ false) where
    abbrev CanStep : Type ℓ
    CanStep = (t : System F W) × Step d rand_max source s t

    has_room : (length s.queue < capacity) ⊎ (length s.queue ≡ capacity)
    has_room = elim (Bool-cases (ltb (length s.queue) capacity)) [
      | inl room ↦ inl (ltb→lt _ _ room)
      | inr full ↦ inr (omega (arith, ltb→le _ _ full, inv.room))
    ]

    producer_can :
        (p : Producer F)
        → s.producer ≡ p
        → (p ≡ Producer.finished) ⊎ CanStep ⊎ (length s.queue ≡ capacity)
    producer_can Producer.looping at = inr (inl (_, produce_end at off))
    producer_can (Producer.pushing tick) at = elim has_room [
      | inl room ↦ inr (inl (_, push tick at room))
      | inr full ↦ inr (inr full)
    ]
    producer_can Producer.counting at = inr (inl (_, count_generated at))
    producer_can Producer.finished at = inl refl

    -- The stopping thread, with any tick as the dummy.
    stopper_can :
        MarketTick F
        → (p : Stopper) → s.stopper ≡ p
        → ((p ≡ Stopper.returned) ⊎ CanStep ⊎ (length s.queue ≡ capacity))
    stopper_can dummy Stopper.idle at = inr (inl (_, stop_flag at))
    stopper_can dummy Stopper.pushing at = elim has_room [
      | inl room ↦ inr (inl (_, stop_push dummy at room))
      | inr full ↦ inr (inr full)
    ]
    stopper_can dummy Stopper.returned at = inl refl

    -- A consumer in `pop` finds a tick, or else `stop` can still push its dummy.
    polling_can :
        MarketTick F
        → (q : List (MarketTick F)) → s.queue ≡ q
        → s.consumer ≡ Consumer.polling
        → CanStep
    polling_can dummy (tick ∷ rest) e at = (_, pop tick rest at e)
    polling_can dummy [] e at = elim (stopper_can dummy s.stopper refl) [
      | inl returned ↦ absurd (omega (arith, inv.dummy returned at, ap length e))
      | inr (inl can) ↦ can
      | inr (inr full) ↦ absurd (omega (arith, full, ap length e))
    ]

    consumer_can :
        MarketTick F → (c : Consumer F) → s.consumer ≡ c → ((c ≡ Consumer.finished) ⊎ CanStep)
    consumer_can dummy Consumer.looping at = inr (_, consume_end at off)
    consumer_can dummy Consumer.polling at = inr (polling_can dummy s.queue refl at)
    consumer_can dummy (Consumer.checking tick) at = inr (_, check_stopped tick at off)
    consumer_can dummy (Consumer.retrying message) at = inr (_, send_stopped message at off)
    consumer_can dummy (Consumer.sending message) at =
        inr (_, send_returns message (failed hard) hard_error at (unfold send in refl) (λ e. cc))
    consumer_can dummy Consumer.counting at = inr (_, count_sent at)
    consumer_can dummy Consumer.finished at = inl refl

    monitor_can : (m : Monitor) → s.monitor ≡ m → (m ≡ Monitor.finished) ⊎ CanStep
    monitor_can Monitor.looping at = inr (_, watch_end at off)
    monitor_can Monitor.waiting at = inr (_, wait_stopped at off)
    monitor_can Monitor.taking_generated at = inr (_, take_generated at)
    monitor_can Monitor.taking_sent at = inr (_, take_sent at)
    monitor_can Monitor.finished at = inl refl

    pub some_can : MarketTick F → Ended s ⊎ CanStep ⊎ StuckFull s
    some_can dummy = elim (consumer_can dummy s.consumer refl) [
      | inr can ↦ inr (inl can)
      | inl c ↦ elim (producer_can s.producer refl) [
        | inr (inl can) ↦ inr (inl can)
        | inr (inr full) ↦ inr (inr (full, c))
        | inl p ↦ elim (stopper_can dummy s.stopper refl) [
          | inr (inl can) ↦ inr (inl can)
          | inr (inr full) ↦ inr (inr (full, c))
          | inl returned ↦ elim (monitor_can s.monitor refl) [
            | inr can ↦ inr (inl can)
            | inl m ↦ inl (p, c, m, returned)
          ]
        ]
      ]
    ]

  left_bound : (s : System F W) → s.running ≡ false → Inv s → steps_left s ≤ 11
  left_bound s off inv = ground arith

  -- Once the flag is down, the three threads and `stop` take at most eleven more steps, in any order,
  -- and can go on until all four have returned, unless they come to a full queue whose consumer has
  -- returned.
  pub stop_ends :
      {has_sender : Bool} (s t : System F W) (n : ℕ)
      → MarketTick F
      → Reach d rand_max source has_sender s
      → s.running ≡ false
      → Run (Step d rand_max source) s n t
      → (n ≤ 11) × (Ended t ⊎ ((u : System F W) × Step d rand_max source t u) ⊎ StuckFull t)
  stop_ends s t n dummy reach off r =
      let inv = Reach-Inv d rand_max source reach in
      let (good, used) =
        run_down (Step d rand_max source) steps_left (λ s. (s.running ≡ false) × Inv s)
          (λ s t st g.
            let (off', less) = step_down st g.0 in
            ((off', Step-Inv d rand_max source st g.1), less))
          r (off, inv) in
      (omega (arith, used, left_bound s off inv), some_can t good.1 good.0 dummy)
