-- ===== src/Programs/Tests.antt =====
-- The programs of src/ at work, with the concrete arithmetic.
use fix_feed_simulator.Prelude.{◌≤◌, ◌≡◌, refl, ◌⊎◌, List, ◌∷◌, ◌++◌, false, none}
use fix_feed_simulator.Prelude.Bytes.{ℤ}
use fix_feed_simulator.Core.Runs.{Run, none_yet, and_then}
use fix_feed_simulator.Market.Cents.{cents}
use fix_feed_simulator.Market.Setup.{has_sender}
use fix_feed_simulator.Market.NonBlocking.{Monitor, System}
use fix_feed_simulator.Market.NonBlocking.Threads.{early_stop}
use fix_feed_simulator.Market.RandomWalk.{Walk}
use fix_feed_simulator.Market.Blocking as Waiting
use fix_feed_simulator.Market.Blocking.{random_walk}
use fix_feed_simulator.Programs.Script.{
  sigint, Member, threads, after_threads, destruction, live, Program, handles_signal, constructs,
  launches, wakes, stops, stop_returns, threads_step, signalled, Step, Reach, here, later,
}
use fix_feed_simulator.Programs.Mains.{rw_main, rw_nonblocking, rw_nonblocking_main}
use fix_feed_simulator.Programs.Ending.{work}
use fix_feed_simulator.Programs.Producers.{GoesOn, never_stuck, program_ends}
use fix_feed_simulator.Programs.Members.{members_outlive}
use fix_feed_simulator.Programs.Dangling.{remaining, monitor_dangles}
use fix_feed_simulator.Programs.Blocking as BlockingProgram
use fix_feed_simulator.Programs.NonBlocking.{refused, engine, laws}

-- The signal has come, and the flag of the system is down, while the monitor waits.
record Stopping : Type 0 where
  program : Program (System ℤ)
  system : System ℤ
  reach : Reach (engine cents 32767) rw_nonblocking_main program
  there : program.object ≡ live system destruction
  alive : program.exit ≡ none
  down : system.running ≡ false
  after : Program (System ℤ)
  run : Run (Step (engine cents 32767)) program 1 after

stopping : Stopping
stopping =
    let early = early_stop cents 32767 (has_sender refused (λ _. false)) in
    record {
      program = _;
      system = early.over;
      reach =
          later
            (later
              (later
                (later
                  (later
                    (later
                      (later (later here (handles_signal sigint _ refl refl))
                        (handles_signal _ _ refl refl))
                      (constructs _ _ refl refl (refused, (λ _. false), refl)))
                    (launches _ _ refl refl refl))
                  (threads_step _ early.watching _ refl refl early.watches))
                (signalled sigint refl refl refl))
              (wakes _ refl refl refl))
            (stops _ early.over _ _ refl refl refl early.flags);
      there = refl;
      alive = refl;
      down = early.is_down;
      after = _;
      run =
          and_then none_yet (stop_returns _ _ _ refl refl refl (record { lower = early.is_down }));
    }

never_stuck_example : GoesOn cents 32767 rw_nonblocking stopping.program
never_stuck_example = never_stuck cents 32767 rw_nonblocking stopping.program stopping.reach

program_ends_example :
    (1 ≤ work (engine cents 32767) (laws cents 32767) stopping.program)
    × GoesOn cents 32767 rw_nonblocking stopping.after
program_ends_example =
    program_ends cents 32767 rw_nonblocking stopping.program stopping.after 1 stopping.system
      destruction stopping.reach stopping.alive stopping.there stopping.down stopping.run

members_outlive_example :
    (engine cents 32767).Joined stopping.system
    ⊎ ((front : List Member) × (destruction ≡ front ++ threads ∷ after_threads))
members_outlive_example =
    members_outlive (engine cents 32767) (laws cents 32767) rw_nonblocking stopping.system
      destruction stopping.reach stopping.alive stopping.there

monitor_dangles_example :
    (p : Program (Waiting.System ℤ (Walk ℤ))) × (s : Waiting.System ℤ (Walk ℤ)) × Reach
      (BlockingProgram.engine cents 32767 (random_walk cents))
      rw_main
      p
    × (p.object ≡ live s remaining)
    × (s.monitor ≡ Monitor.waiting)
monitor_dangles_example = monitor_dangles cents 32767 (random_walk cents)
