-- ===== src/Programs/Producers.antt =====
-- src/producer_rw.cpp, src/producer_gbm.cpp, src/producer_rw_nonblocking.cpp and
-- src/producer_gbm_nonblocking.cpp: each `main` with the system that it owns.
use fix_feed_simulator.Prelude.{
  Option, ℕ, ◌≤◌, ◌≡◌, refl, ap, ◌⊎◌, inl, inr, List, false, none, some,
}
use mathlib.Core.Logic.{Lift}
use fix_feed_simulator.Core.Runs.{Run}
use fix_feed_simulator.Market.Double.{Double}
use fix_feed_simulator.Market.RandomWalk.{Walk}
use fix_feed_simulator.Market.BrownianMotion.{Motion}
use fix_feed_simulator.Market.NonBlocking as NonBlockingSystem
use fix_feed_simulator.Market.BrownianNonBlocking as BrownianNonBlockingSystem
use fix_feed_simulator.Market.Blocking as BlockingSystem
use fix_feed_simulator.Market.Blocking.{random_walk}
use fix_feed_simulator.Market.Blocking.Shutdown.{StuckFull}
use fix_feed_simulator.Market.BrownianBlocking.{brownian_motion}
use fix_feed_simulator.Programs.Script.{
  Signal, Exit, killed, Member, Engine, live, returned, Program, Step, Reach,
}
use fix_feed_simulator.Programs.Laws.{Laws}
use fix_feed_simulator.Programs.Mains.{Producer, rw, gbm, rw_nonblocking, gbm_nonblocking, main_of}
use fix_feed_simulator.Programs.Invariant.{ExitOk}
use fix_feed_simulator.Programs.Progress.{CanStep, StuckAt, goes_on}
use fix_feed_simulator.Programs.Ending.{work, run_ends}
use fix_feed_simulator.Programs.Blocking as Blocking
use fix_feed_simulator.Programs.NonBlocking as NonBlocking
use fix_feed_simulator.Programs.BrownianNonBlocking as BrownianNonBlocking

-- By the end of `main` with code 0, or by a signal that has no handler.
abbrev pub HasExited : Option Exit → Type 0
HasExited exit = (exit ≡ some (returned 0)) ⊎ ((signal : Signal) × (exit ≡ some (killed signal)))

exited : (exit : Option Exit) → ExitOk exit → (exit ≡ none) ⊎ HasExited exit
exited none ok = inl refl
exited (some (returned code)) ok = inr (inl (ap (λ c. some (returned c)) ok))
exited (some (killed signal)) ok = inr (inr (signal, refl))

module _ {ℓ} {F : Type ℓ} (d : Double F) (rand_max : ℕ) where
  -- The system that the `main` declares.
  abbrev pub SystemOf : Producer → Type ℓ
  SystemOf rw = BlockingSystem.System F (Walk F)
  SystemOf gbm = BlockingSystem.System F (Motion F)
  SystemOf rw_nonblocking = NonBlockingSystem.System F
  SystemOf gbm_nonblocking = BrownianNonBlockingSystem.System F

  abbrev pub engine_of : (m : Producer) → Engine (SystemOf m)
  engine_of rw = Blocking.engine d rand_max (random_walk d)
  engine_of gbm = Blocking.engine d rand_max (brownian_motion d)
  engine_of rw_nonblocking = NonBlocking.engine d rand_max
  engine_of gbm_nonblocking = BrownianNonBlocking.engine d rand_max

  abbrev pub laws_of : (m : Producer) → Laws (engine_of m)
  laws_of rw = Blocking.laws d rand_max (random_walk d)
  laws_of gbm = Blocking.laws d rand_max (brownian_motion d)
  laws_of rw_nonblocking = NonBlocking.laws d rand_max
  laws_of gbm_nonblocking = BrownianNonBlocking.laws d rand_max

  -- The live system of a blocking program has a full queue and a consumer that has returned.
  abbrev pub HangsAt : (m : Producer) → Program (SystemOf m) → Type ℓ
  HangsAt rw p = (s : SystemOf rw) × (ms : List Member) × (p.object ≡ live s ms) × StuckFull s
  HangsAt gbm p = (s : SystemOf gbm) × (ms : List Member) × (p.object ≡ live s ms) × StuckFull s
  HangsAt rw_nonblocking p = Lift {0, ℓ} ⊥
  HangsAt gbm_nonblocking p = Lift {0, ℓ} ⊥

  stuck_there :
      (m : Producer) (p : Program (SystemOf m)) → StuckAt (engine_of m) (laws_of m) p → HangsAt m p
  stuck_there rw p stuck = stuck
  stuck_there gbm p stuck = stuck
  stuck_there rw_nonblocking p (s, ms, there, never) = never
  stuck_there gbm_nonblocking p (s, ms, there, never) = never

  -- The exit, a step of the program itself, or the one state in which it hangs.
  abbrev pub GoesOn : (m : Producer) → Program (SystemOf m) → Type ℓ
  GoesOn m p = HasExited p.exit ⊎ CanStep (engine_of m) (laws_of m) p ⊎ HangsAt m p

  going :
      (m : Producer) (p : Program (SystemOf m))
      → (p.exit ≡ none → CanStep (engine_of m) (laws_of m) p ⊎ StuckAt (engine_of m) (laws_of m) p)
      → ExitOk p.exit
      → GoesOn m p
  going m p can ok = elim (exited p.exit ok) [
    | inl alive ↦
        inr (elim (can alive) [ inl next ↦ inl next | inr stuck ↦ inr (stuck_there m p stuck) ])
    | inr over ↦ inl over
  ]

  -- None of the four programs, each with its own system, is ever stuck before its exit: there is a
  -- step of `main`, the sleep in the loop while the flag is up included, or of a thread while
  -- `main` is in the call of `stop` or destroys the members; a signal does not count. Only the two
  -- with a blocking ring can come to a state without one: there the queue is full and the consumer
  -- has returned. The exit is with code 0 or by a signal.
  pub never_stuck :
      (m : Producer) (p : Program (SystemOf m)) → Reach (engine_of m) (main_of m) p → GoesOn m p
  never_stuck m p r = let (can, ok) = goes_on (engine_of m) (laws_of m) m r in going m p can ok

  -- Each of the four programs with its own system, once the flag of its live system is down and as
  -- it has not exited, takes no more steps than `work` counts, in any order of `main`, the threads
  -- and the signals. Wherever it then is, it has exited with code 0 or by a signal; or it can go on
  -- by a step of `main`, or of a thread while `main` is in the call of `stop` or destroys the
  -- members, without a signal; or, only with a blocking ring, it has come to a full queue whose
  -- consumer has returned.
  pub program_ends :
      (m : Producer) (p q : Program (SystemOf m)) (n : ℕ) (s : SystemOf m) (ms : List Member)
      → Reach (engine_of m) (main_of m) p
      → p.exit ≡ none
      → p.object ≡ live s ms
      → (engine_of m).running s ≡ false
      → Run (Step (engine_of m)) p n q
      → (n ≤ work (engine_of m) (laws_of m) p) × GoesOn m q
  program_ends m p q n s ms reach alive there off r =
      let (bound, can, ok) =
        run_ends (engine_of m) (laws_of m) m p q n s ms reach alive there off r in
      (bound, going m q can ok)
