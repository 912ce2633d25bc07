-- ===== src/Programs/Blocking.antt =====
-- src/producer_rw.cpp and src/producer_gbm.cpp: the programs and their system, in terms of
-- Programs.Script.
use fix_feed_simulator.Prelude.{
  ℕ, ◌≡◌, refl, sym, ap, ◌∙◌, inl, inr, true, false, Bool-cases, subst,
}
use fix_feed_simulator.Network.Sender.{Descriptors, Answers}
use fix_feed_simulator.Market.Double.{Double}
use fix_feed_simulator.Market.Setup.{has_sender}
use fix_feed_simulator.Market.Blocking.{Source, Stopper, System, start, here}
use fix_feed_simulator.Market.Blocking.Invariant.{Inv, Step-Inv, Reach-Inv}
use fix_feed_simulator.Market.Blocking.Shutdown.{StuckFull, steps_left, step_down}
use fix_feed_simulator.Market.Blocking.Threads.{
  ThreadStep, StopStep, Joined, start-running, thread_keeps, stop-running, Step-Joined, thread_can,
  stop_can,
}
use fix_feed_simulator.Programs.Script.{Engine}
use fix_feed_simulator.Programs.Laws.{Laws}
use fix_feed_simulator.Programs.NonBlocking.{refused}

module _ {ℓ} {F W : Type ℓ} (d : Double F) (rand_max : ℕ) (source : Source F W) where
  abbrev pub engine : Engine (System F W)
  engine = record {
    First =
        λ s. (a : Answers) × (fds : Descriptors) × (s ≡ start d rand_max source (has_sender a fds));
    running = λ s. s.running;
    ThreadStep = ThreadStep d rand_max source;
    StopStep = StopStep d rand_max source;
    Returned = λ s. (s.stopper ≡ Stopper.returned) × Unit {ℓ};
    Joined = Joined d rand_max source;
  }

  pub first_raised : (s : System F W) → engine.First s → s.running ≡ true
  first_raised s (a, fds, made) =
      ap (λ (t : System F W). t.running) made ∙ start-running d rand_max source (has_sender a fds)

  pub first_Inv : (s : System F W) → engine.First s → Inv s
  first_Inv s (a, fds, made) =
      subst Inv (sym made) (Reach-Inv d rand_max source {has_sender = has_sender a fds} here)

  pub returned_down : (s : System F W) → Inv s → s.stopper ≡ Stopper.returned → s.running ≡ false
  returned_down s inv over = elim (Bool-cases s.running) [
    | inl raised ↦ absurd (let idle = inv.flag_down raised in cc)
    | inr off ↦ off
  ]

  -- The system is stuck where the queue is full and the consumer has returned.
  abbrev pub laws : Laws engine
  laws = record {
    Good = Inv;
    Stuck = StuckFull;
    left = steps_left;
    first = start d rand_max source (has_sender refused (λ _. false));
    first-First = (refused, (λ _. false), refl);
    first-Good = first_Inv;
    first-running = first_raised;
    thread-Good = λ s t st good. Step-Inv d rand_max source st.0 good;
    thread-running = λ s t st. (thread_keeps d rand_max source st.0 st.1).0;
    thread-Returned = λ s t st over. ((thread_keeps d rand_max source st.0 st.1).1 ∙ over.0, tt);
    thread_down = λ s t st off. (step_down d rand_max source st.0 off).1;
    thread-Joined = λ s t st joined. Step-Joined d rand_max source st.0 joined;
    stop-Good = λ s t st good. Step-Inv d rand_max source st.0 good;
    stop-running = λ s t st good. (stop-running d rand_max source st.0 st.1 good).1;
    stop_down = λ s t st off. (step_down d rand_max source st.0 off).1;
    Returned-running = λ s good over. returned_down s good over.0;
    can_thread =
        λ s good over. thread_can d rand_max source s good (returned_down s good over.0) over.0;
    can_stop = λ s good. elim (stop_can d rand_max source s good) [
      | inl over ↦ inl (over, tt)
      | inr can ↦ inr can
    ];
  }
