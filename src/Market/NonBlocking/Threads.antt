-- ===== src/Market/NonBlocking/Threads.antt =====
-- Which steps of include/market/market_data_system_rw_nonblocking.h are the threads' and which are
-- those of `stop`, for the programs that own the system.
use fix_feed_simulator.Prelude.{◌≡◌, refl, arith, ◌⊎◌, inl, inr, Bool, true, false, Bool-cases, ℕ}
use fix_feed_simulator.Market.Double.{Double}
use fix_feed_simulator.Market.NonBlocking.{Producer, Consumer}
use fix_feed_simulator.Market.NonBlocking.{Monitor}
use fix_feed_simulator.Market.NonBlocking.{
  System, Step, produce, produce_end, push_ok, push_refused, push_again, push_abandon,
  count_generated, consume, consume_end, pop_refused, pop_ok, send_test, send_stopped, send_throws,
  send_returns, count_sent, watch, watch_end, wait_over, wait_stopped, take_generated, take_sent,
  stop, start,
}
use fix_feed_simulator.Market.NonBlocking.Shutdown.{some_can}

module _ {ℓ} {F : Type ℓ} (d : Double F) (rand_max : ℕ) where
  pub is_stop : {s t : System F} → Step d rand_max s t → Bool
  is_stop (stop go) = true
  is_stop _ = false

  abbrev pub ThreadStep : System F → System F → Type ℓ
  ThreadStep s t = (st : Step d rand_max s t) × (is_stop st ≡ false)

  abbrev pub StopStep : System F → System F → Type ℓ
  StopStep s t = (st : Step d rand_max s t) × (is_stop st ≡ true)

  abbrev pub Joined : System F → Type ℓ
  Joined s =
      (s.producer ≡ Producer.finished)
      × (s.consumer ≡ Consumer.finished)
      × (s.monitor ≡ Monitor.finished)

  pub start-running : (has_sender : Bool) → (start d rand_max has_sender).running ≡ true
  unfolding start
  start-running has_sender = refl

  pub thread-running :
      {s t : System F} (st : Step d rand_max s t) → is_stop st ≡ false → t.running ≡ s.running
  unfolding is_stop
  thread-running (stop go) goes_on = cc
  thread-running (produce z rand₁ rand₂ at go) goes_on = refl
  thread-running _ goes_on = refl

  pub stop-running :
      {s t : System F} (st : Step d rand_max s t)
      → is_stop st ≡ true
      → (s.running ≡ true) × (t.running ≡ false)
  unfolding is_stop
  stop-running (stop go) stops = (go, refl)
  stop-running (produce z rand₁ rand₂ at go) stops = cc
  stop-running _ stops = cc

  pub Step-Joined : {s t : System F} → Step d rand_max s t → Joined s → Joined t
  Step-Joined (produce z rand₁ rand₂ at go) joined = ground arith
  Step-Joined (produce_end at go) joined = ground arith
  Step-Joined (push_ok tick at room) joined = ground arith
  Step-Joined (push_refused tick at) joined = ground arith
  Step-Joined (push_again tick at go) joined = ground arith
  Step-Joined (push_abandon tick at go) joined = ground arith
  Step-Joined (count_generated at) joined = ground arith
  Step-Joined (consume at go) joined = ground arith
  Step-Joined (consume_end at go) joined = ground arith
  Step-Joined (pop_refused at) joined = ground arith
  Step-Joined (pop_ok tick rest at e) joined = ground arith
  Step-Joined (send_test message at go) joined = ground arith
  Step-Joined (send_stopped message at go) joined = ground arith
  Step-Joined (send_throws message answer at e) joined = ground arith
  Step-Joined (send_returns message answer outcome at e ne) joined = ground arith
  Step-Joined (count_sent at) joined = ground arith
  Step-Joined (watch at go) joined = ground arith
  Step-Joined (watch_end at go) joined = ground arith
  Step-Joined (wait_over at go) joined = ground arith
  Step-Joined (wait_stopped at go) joined = ground arith
  Step-Joined (take_generated at) joined = ground arith
  Step-Joined (take_sent at) joined = ground arith
  Step-Joined (stop go) joined = joined

  -- With the flag down a thread can step, until all have returned.
  pub thread_can : (s : System F) → s.running ≡ false → Joined s ⊎ ((t : System F) × ThreadStep s t)
  thread_can s off = elim (some_can d rand_max s off) [
    | inl joined ↦ inl joined
    | inr (t, st) ↦ elim (Bool-cases (is_stop st)) [
      | inl stops ↦ absurd (let raised = (stop-running st stops).0 in cc)
      | inr goes_on ↦ inr (t, (st, goes_on))
    ]
  ]

  -- `stop` can be called, or was.
  pub stop_can : (s : System F) → (s.running ≡ false) ⊎ ((t : System F) × StopStep s t)
  stop_can s = elim (Bool-cases s.running) [
    | inl raised ↦ inr (_, (stop raised, unfold is_stop in refl))
    | inr off ↦ inl off
  ]

  -- `stop` can be over while the monitor still waits for its second.
  pub record EarlyStop (has_sender : Bool) : Type ℓ where
    pub watching : System F
    pub over : System F
    pub watches : ThreadStep (start d rand_max has_sender) watching
    pub flags : StopStep watching over
    pub waits : over.monitor ≡ Monitor.waiting
    pub is_down : over.running ≡ false

  pub early_stop : (has_sender : Bool) → EarlyStop has_sender
  unfolding start is_stop
  early_stop has_sender = record {
    watching = _;
    over = _;
    watches = (watch refl refl, refl);
    flags = (stop refl, refl);
    waits = refl;
    is_down = refl;
  }
