-- ===== src/Programs/BrownianNonBlocking.antt =====
-- src/producer_gbm_nonblocking.cpp: the program and its system, in terms of
-- Programs.Script.
use fix_feed_simulator.Prelude.{ℕ, ◌≡◌, refl, ap, ◌∙◌, ◌⊎◌, inl, inr, true, false}
use fix_feed_simulator.Network.Sender.{Descriptors, Answers}
use fix_feed_simulator.Market.Double.{Double}
use fix_feed_simulator.Market.Setup.{has_sender}
use fix_feed_simulator.Market.BrownianNonBlocking.{System, start}
use fix_feed_simulator.Market.BrownianNonBlocking.Shutdown.{steps_left, step_down}
use fix_feed_simulator.Market.BrownianNonBlocking.Threads.{
  ThreadStep, StopStep, Joined, start-running, thread-running, stop-running, Step-Joined,
  thread_can, stop_can,
}
use fix_feed_simulator.Programs.Script.{Engine}
use fix_feed_simulator.Programs.Laws.{Laws}
use fix_feed_simulator.Programs.NonBlocking.{refused}
use mathlib.Core.Logic.{Lift}

module _ {ℓ} {F : Type ℓ} (d : Double F) (rand_max : ℕ) where
  abbrev pub engine : Engine (System F)
  engine = record {
    First = λ s. (a : Answers) × (fds : Descriptors) × (s ≡ start d rand_max (has_sender a fds));
    running = λ s. s.running;
    ThreadStep = ThreadStep d rand_max;
    StopStep = StopStep d rand_max;
    Returned = λ s. Lift {0, ℓ} (s.running ≡ false);
    Joined = Joined d rand_max;
  }

  pub first_raised : (s : System F) → engine.First s → s.running ≡ true
  first_raised s (a, fds, made) =
      ap (λ (t : System F). t.running) made ∙ start-running d rand_max (has_sender a fds)

  pub stop_returns :
      (s : System F) → Lift {0, ℓ} (s.running ≡ false) ⊎ ((t : System F) × StopStep d rand_max s t)
  stop_returns s = elim (stop_can d rand_max s) [
    | inl off ↦ inl (record { lower = off })
    | inr can ↦ inr can
  ]

  -- The system is never stuck: a call of `stop` only lowers the flag.
  abbrev pub laws : Laws engine
  laws = record {
    Good = λ s. Unit {ℓ};
    Stuck = λ s. Lift {0, ℓ} ⊥;
    left = steps_left;
    first = start d rand_max (has_sender refused (λ _. false));
    first-First = (refused, (λ _. false), refl);
    first-Good = λ s first. tt;
    first-running = first_raised;
    thread-Good = λ s t st good. tt;
    thread-running = λ s t st. thread-running d rand_max st.0 st.1;
    thread-Returned =
        λ s t st off. record { lower = thread-running d rand_max st.0 st.1 ∙ off.lower };
    thread_down = λ s t st off. (step_down d rand_max st.0 off).1;
    thread-Joined = λ s t st joined. Step-Joined d rand_max st.0 joined;
    stop-Good = λ s t st good. tt;
    stop-running = λ s t st good. (stop-running d rand_max st.0 st.1).1;
    stop_down = λ s t st off. (step_down d rand_max st.0 off).1;
    Returned-running = λ s good off. off.lower;
    can_thread = λ s good off. elim (thread_can d rand_max s off.lower) [
      | inl joined ↦ inl joined
      | inr can ↦ inr (inl can)
    ];
    can_stop = λ s good. elim (stop_returns s) [ inl over ↦ inl over | inr can ↦ inr (inl can) ];
  }
