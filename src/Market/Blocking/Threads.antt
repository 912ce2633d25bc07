-- ===== src/Market/Blocking/Threads.antt =====
-- Which steps of include/market/market_data_system_rw.h are the threads' and which are those of
-- `stop`, for the programs that own the system.
use fix_feed_simulator.Prelude.{
  ◌≡◌, ◌≢◌, refl, arith, ◌⊎◌, inl, inr, [], Bool, true, false, Bool-cases, ℕ,
}
use fix_feed_simulator.Market.Double.{Double}
use fix_feed_simulator.Market.Tick.{MarketTick}
use fix_feed_simulator.Market.NonBlocking.{Monitor}
use fix_feed_simulator.Market.Blocking.{
  Source, Producer, Consumer, Stopper, System, Step, produce, produce_end, push, count_generated,
  consume, consume_end, pop, check_stopped, check_running, send_test, send_stopped, send_throws,
  send_returns, count_sent, watch, watch_end, wait_over, wait_stopped, take_generated, take_sent,
  stop_flag, stop_push, start,
}
use fix_feed_simulator.Market.Blocking.Invariant.{Inv}
use fix_feed_simulator.Market.Blocking.Shutdown.{StuckFull, some_can}

module _ {ℓ} {F W : Type ℓ} (d : Double F) (rand_max : ℕ) (source : Source F W) where
  pub is_stop : {s t : System F W} → Step d rand_max source s t → Bool
  is_stop (stop_flag at) = true
  is_stop (stop_push dummy at room) = true
  is_stop _ = false

  abbrev pub ThreadStep : System F W → System F W → Type ℓ
  ThreadStep s t = (st : Step d rand_max source s t) × (is_stop st ≡ false)

  abbrev pub StopStep : System F W → System F W → Type ℓ
  StopStep s t = (st : Step d rand_max source s t) × (is_stop st ≡ true)

  abbrev pub Joined : System F W → Type ℓ
  Joined s =
      (s.producer ≡ Producer.finished)
      × (s.consumer ≡ Consumer.finished)
      × (s.monitor ≡ Monitor.finished)

  pub start-running : (has_sender : Bool) → (start d rand_max source has_sender).running ≡ true
  unfolding start
  start-running has_sender = refl

  pub thread_keeps :
      {s t : System F W} (st : Step d rand_max source s t)
      → is_stop st ≡ false
      → (t.running ≡ s.running) × (t.stopper ≡ s.stopper)
  unfolding is_stop
  thread_keeps (stop_flag at) goes_on = cc
  thread_keeps (stop_push dummy at room) goes_on = cc
  thread_keeps (produce z rand₁ rand₂ at go) goes_on = (refl, refl)
  thread_keeps _ goes_on = (refl, refl)

  pub stop-running :
      {s t : System F W} (st : Step d rand_max source s t)
      → is_stop st ≡ true
      → Inv s
      → (s.stopper ≢ Stopper.returned) × (t.running ≡ false)
  unfolding is_stop
  stop-running {s} (stop_flag at) stops inv = ((λ e. cc), refl)
  stop-running {s} (stop_push dummy at room) stops inv = ground arith
  stop-running (produce z rand₁ rand₂ at go) stops inv = cc
  stop-running _ stops inv = cc

  pub Step-Joined : {s t : System F W} → Step d rand_max source s t → Joined s → Joined t
  Step-Joined (produce z rand₁ rand₂ at go) joined = ground arith
  Step-Joined (produce_end at go) joined = ground arith
  Step-Joined (push tick at room) joined = ground arith
  Step-Joined (count_generated at) joined = ground arith
  Step-Joined (consume at go) joined = ground arith
  Step-Joined (consume_end at go) joined = ground arith
  Step-Joined (pop tick rest at e) joined = ground arith
  Step-Joined (check_stopped tick at off) joined = ground arith
  Step-Joined (check_running tick at on) joined = ground arith
  Step-Joined (send_test message at go) joined = ground arith
  Step-Joined (send_stopped message at go) joined = ground arith
  Step-Joined (send_throws message answer at e) joined = ground arith
  Step-Joined (send_returns message answer outcome at e ne) joined = ground arith
  Step-Joined (count_sent at) joined = ground arith
  Step-Joined (watch at go) joined = ground arith
  Step-Joined (watch_end at go) joined = ground arith
  Step-Joined (wait_over at go) joined = ground arith
  Step-Joined (wait_stopped at go) joined = ground arith
  Step-Joined (take_generated at) joined = ground arith
  Step-Joined (take_sent at) joined = ground arith
  Step-Joined (stop_flag at) joined = joined
  Step-Joined (stop_push dummy at room) joined = joined

  -- A tick that was only declared, as `stop` pushes it.
  abbrev dummy_tick : MarketTick F
  dummy_tick = record { symbol = []; bid = d.lit 0 0; ask = d.lit 0 0; bid_size = 0; ask_size = 0 }

  -- Of the steps that are possible with the flag down, one is a thread's if `stop` has returned.
  pub thread_can :
      (s : System F W)
      → Inv s
      → s.running ≡ false
      → s.stopper ≡ Stopper.returned
      → Joined s ⊎ ((t : System F W) × ThreadStep s t) ⊎ StuckFull s
  thread_can s inv off over = elim (some_can d rand_max source s inv off dummy_tick) [
    | inl (p, c, m, _) ↦ inl (p, c, m)
    | inr (inr stuck) ↦ inr (inr stuck)
    | inr (inl (t, st)) ↦ elim (Bool-cases (is_stop st)) [
      | inl stops ↦ absurd ((stop-running st stops inv).0 over)
      | inr goes_on ↦ inr (inl (t, (st, goes_on)))
    ]
  ]

  -- A call of `stop` is over, or it or a thread can step.
  pub stop_can :
      (s : System F W)
      → Inv s
      → (s.stopper ≡ Stopper.returned)
        ⊎ ((t : System F W) × StopStep s t)
        ⊎ ((t : System F W) × ThreadStep s t)
        ⊎ StuckFull s
  stop_can s inv = elim (Bool-cases s.running) [
    | inl raised ↦ inr (inl (_, (stop_flag (inv.flag_down raised), unfold is_stop in refl)))
    | inr off ↦ elim (some_can d rand_max source s inv off dummy_tick) [
      | inl (_, _, _, over) ↦ inl over
      | inr (inr stuck) ↦ inr (inr (inr stuck))
      | inr (inl (t, st)) ↦ elim (Bool-cases (is_stop st)) [
        | inl stops ↦ inr (inl (t, (st, stops)))
        | inr goes_on ↦ inr (inr (inl (t, (st, goes_on))))
      ]
    ]
  ]

  -- `stop` can be over while the monitor still waits for its second.
  pub record EarlyStop (has_sender : Bool) : Type ℓ where
    pub watching : System F W
    pub flagged : System F W
    pub over : System F W
    pub watches : ThreadStep (start d rand_max source has_sender) watching
    pub flags : StopStep watching flagged
    pub pushes : StopStep flagged over
    pub waits : over.monitor ≡ Monitor.waiting
    pub is_over : over.stopper ≡ Stopper.returned
    pub is_down : over.running ≡ false

  pub early_stop : (has_sender : Bool) → EarlyStop has_sender
  unfolding start is_stop
  early_stop has_sender = record {
    watching = _;
    flagged = _;
    over = _;
    watches = (watch refl refl, refl);
    flags = (stop_flag refl, refl);
    pushes = (stop_push dummy_tick refl (omega arith), refl);
    waits = refl;
    is_over = refl;
    is_down = refl;
  }
