-- ===== src/Programs/Dangling.antt =====
-- The members that the programs of src/ destroy under a running thread.
use fix_feed_simulator.Prelude.{ℕ, ◌≡◌, refl, ap, List, [], ◌∷◌, false}
use fix_feed_simulator.Market.Double.{Double}
use fix_feed_simulator.Market.Setup.{has_sender}
use fix_feed_simulator.Market.NonBlocking.{Monitor}
use fix_feed_simulator.Market.Blocking.{Source, System}
use fix_feed_simulator.Market.Blocking.Threads.{early_stop}
use fix_feed_simulator.Programs.Script.{
  sigint, give, destructor, Member, threads, after_threads, running_flag, live, Program,
  handles_signal, constructs, launches, wakes, stops, stop_returns, scope_ends, tears, threads_step,
  signalled, Reach, here, later,
}
use fix_feed_simulator.Programs.Mains.{rw_main}
use fix_feed_simulator.Programs.Blocking.{engine}
use fix_feed_simulator.Programs.NonBlocking.{refused}

-- Mutex and condition variable are gone.
abbrev pub remaining : List Member
remaining = running_flag ∷ threads ∷ after_threads

module _ {ℓ} {F W : Type ℓ} (d : Double F) (rand_max : ℕ) (source : Source F W) where
  -- The program of src/producer_rw.cpp, whatever generator its system has, can come to a state in
  -- which the monitor waits on the condition variable with the mutex, while both have been
  -- destroyed: the members are destroyed from the last one declared on, and the threads, declared
  -- before these two, are joined after.
  pub monitor_dangles :
      (p : Program (System F W)) × (s : System F W) × Reach (engine d rand_max source) rw_main p
      × (p.object ≡ live s remaining)
      × (s.monitor ≡ Monitor.waiting)
  monitor_dangles =
      let fds = λ (n : ℕ). false in
      let torn_down = ap (λ b. destructor b (give 0 ∷ [])) in
      let early = early_stop d rand_max source (has_sender refused fds) in
      (
        _,
        early.over,
        later
            (later
              (later
                (later
                  (later
                    (later
                      (later
                        (later
                          (later
                            (later
                              (later (later here (handles_signal sigint _ refl refl))
                                (constructs _ _ refl refl (refused, fds, refl)))
                              (launches _ _ refl refl refl))
                            (threads_step _ early.watching _ refl refl early.watches))
                          (signalled sigint refl refl refl))
                        (wakes _ refl refl refl))
                      (stops _ early.flagged _ _ refl refl refl early.flags))
                    (stops _ early.over _ _ refl refl refl early.pushes))
                  (stop_returns _ _ _ refl refl refl (early.is_over, tt)))
                (scope_ends _ _ _ refl refl refl))
              (tears _ _ _ _ refl (torn_down early.is_down) refl (λ e. cc)))
            (tears _ _ _ _ refl (torn_down early.is_down) refl (λ e. cc)),
        refl,
        early.waits,
      )
