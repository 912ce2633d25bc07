-- ===== src/Programs/Ending.antt =====
-- Why the programs of src/ end once the flag of their system is down.
use fix_feed_simulator.Prelude.{
  ℕ, ◌+◌, ◌≤◌, ◌<◌, ◌≡◌, refl, sym, ap, ◌∙◌, subst, arith, ◌⊎◌, List, [], ◌∷◌, Bool, true, false,
  Option, none, some, length,
}
use fix_feed_simulator.Core.Runs.{Run, run_down}
use fix_feed_simulator.Programs.Script.{
  Action, handle, construct, launch, wait_flag, end_scope, tear_down, Member, Engine, Object,
  absent, constructed, live, Exit, Program, destructor, Step, handles_signal, constructs, launches,
  sleeps_on, wakes, stops, stop_returns, pauses, scope_ends, tears, torn, gives, threads_step,
  signalled, dies, Reach,
}
use fix_feed_simulator.Programs.Laws.{Laws}
use fix_feed_simulator.Programs.Plan.{
  Phase, before, made, up, stopping, stopped, gone, IsPlan, stopping_plan, pause_plan, scope_plan,
  tear_plan, give_plan, main_of-IsPlan,
}
use fix_feed_simulator.Programs.Mains.{Producer, main_of}
use fix_feed_simulator.Programs.Phases.{ObjectOk}
use fix_feed_simulator.Programs.Invariant.{ExitOk, Inv, Step-Inv, Reach-Inv, at_point}
use fix_feed_simulator.Programs.Progress.{CanStep, StuckAt, good_at, alive_can}

-- The end of a scope stands for the call of `stop`, which is left out, and the destruction.
abbrev pub weight : Action → ℕ
weight end_scope = 2
weight _ = 1

abbrev pub weights : List Action → ℕ
weights [] = 0
weights (a ∷ script) = weight a + weights script

-- What may still come once `stop` is under way.
abbrev pub Past : List Action → Type 0
Past [] = Unit
Past (handle signal ∷ script) = ⊥
Past (construct ∷ script) = ⊥
Past (launch ∷ script) = ⊥
Past (wait_flag ∷ script) = ⊥
Past (_ ∷ script) = Past script

abbrev pub flag_work : Bool → ℕ
flag_work true = 1
flag_work false = 0

gone-Past : {script : List Action} → IsPlan gone script → Past script
gone-Past give_plan = tt

stopped-Past : {script : List Action} → IsPlan stopped script → Past script
stopped-Past (pause_plan plan) = stopped-Past plan
stopped-Past (scope_plan plan) = gone-Past plan
stopped-Past (tear_plan plan) = gone-Past plan

stopping-Past : {script : List Action} → IsPlan stopping script → Past script
stopping-Past (stopping_plan plan) = stopped-Past plan

module _ {ℓ} {S : Type ℓ} (e : Engine S) (l : Laws e) where
  -- The steps that are left, at most.
  abbrev pub object_work : Object S → ℕ
  object_work absent = 0
  object_work (constructed s) = 0
  object_work (live s ms) = l.left s + length ms

  abbrev pub exit_work : Option Exit → ℕ
  exit_work none = 1
  exit_work (some exit) = 0

  abbrev pub work : Program S → ℕ
  work p = weights p.script + object_work p.object + flag_work p.flag + exit_work p.exit

  -- The flag of the system is down.
  abbrev pub ObjectOff : Object S → Type 0
  ObjectOff absent = Unit
  ObjectOff (constructed s) = ⊥
  ObjectOff (live s ms) = e.running s ≡ false

  pub record Off (p : Program S) : Type ℓ where
    pub inv : Inv e l p
    pub past : Past p.script
    pub off : ObjectOff p.object

  Past-at : {p : Program S} {script : List Action} → Off p → p.script ≡ script → Past script
  Past-at off at = subst Past at off.past

  Off-at :
      {p : Program S} (s : S) (ms : List Member)
      → Off p
      → p.object ≡ live s ms
      → e.running s ≡ false
  Off-at s ms off there = subst ObjectOff there off.off

  -- Only what a step changes is checked again.
  Off-next :
      {p : Program S} (q : Program S)
      → Step e p q
      → Off p
      → Past q.script
      → ObjectOff q.object
      → Off q
  Off-next q st off past down = record { inv = Step-Inv e l st off.inv; past = past; off = down }

  step_down : (p q : Program S) → Step e p q → Off p → Off q × (work q < work p)
  step_down p q (handles_signal signal rest alive at) off = absurd (Past-at off at)
  step_down p q (constructs s rest alive at first) off = absurd (Past-at off at)
  step_down p q (launches s rest alive at there) off = absurd (Past-at off at)
  step_down p q (sleeps_on rest alive at raised) off = absurd (Past-at off at)
  step_down p q (wakes rest alive at down) off = absurd (Past-at off at)
  step_down p q (stops s t ms rest alive at there st) off = (
    Off-next q (stops s t ms rest alive at there st) off off.past
        (l.stop-running s t st (good_at e l s ms off.inv alive there)),
    omega (arith, ap object_work there, l.stop_down s t st (Off-at s ms off there)),
  )
  step_down p q (stop_returns s ms rest alive at there done) off = (
    Off-next q (stop_returns s ms rest alive at there done) off (Past-at off at) off.off,
    omega (arith, ap weights at),
  )
  step_down p q (pauses rest alive at) off =
      (Off-next q (pauses rest alive at) off (Past-at off at) off.off, omega (arith, ap weights at))
  step_down p q (scope_ends s ms rest alive at there) off =
      let down : destructor (e.running s) rest ≡ tear_down ∷ rest =
        rw (Off-at s ms off there) refl in
      (
        Off-next q (scope_ends s ms rest alive at there) off
            (subst Past (sym down) (Past-at off at)) off.off,
        omega (arith, ap weights at, ap weights down),
      )
  step_down p q (tears s m ms rest alive at there join) off = (
    Off-next q (tears s m ms rest alive at there join) off off.past (Off-at s (m ∷ ms) off there),
    omega (arith, ap object_work there),
  )
  step_down p q (torn s rest alive at there) off = (
    Off-next q (torn s rest alive at there) off (Past-at off at) tt,
    omega (arith, ap weights at, ap object_work there),
  )
  step_down p q (gives code rest alive at) off = (
    Off-next q (gives code rest alive at) off (Past-at off at) off.off,
    omega (arith, ap weights at, ap exit_work alive),
  )
  step_down p q (threads_step s t ms alive there st) off = (
    Off-next q (threads_step s t ms alive there st) off off.past
        (l.thread-running s t st ∙ Off-at s ms off there),
    omega (arith, ap object_work there, l.thread_down s t st (Off-at s ms off there)),
  )
  step_down p q (signalled signal alive raised handled) off = (
    Off-next q (signalled signal alive raised handled) off off.past off.off,
    omega (arith, ap flag_work raised),
  )
  step_down p q (dies signal alive not_handled) off = (
    Off-next q (dies signal alive not_handled) off off.past off.off,
    omega (arith, ap exit_work alive),
  )

  live-Past :
      (phase : Phase) (script : List Action) (s : S) (ms : List Member)
      → IsPlan phase script
      → ObjectOk e l phase (live s ms)
      → e.running s ≡ false
      → Past script
  live-Past up script s ms plan (good, raised, whole) off = cc
  live-Past stopping script s ms plan ok off = stopping-Past plan
  live-Past stopped script s ms plan ok off = stopped-Past plan
  live-Past before script s ms plan ok off = absurd ok.lower
  live-Past made script s ms plan ok off = absurd ok.lower
  live-Past gone script s ms plan ok off = absurd ok.lower

  -- Once the flag of its live system is down, a program ends, or its system is stuck.
  pub run_ends :
      (m : Producer) (p q : Program S) (n : ℕ) (s : S) (ms : List Member)
      → Reach e (main_of m) p
      → p.exit ≡ none
      → p.object ≡ live s ms
      → e.running s ≡ false
      → Run (Step e) p n q
      → (n ≤ work p) × (q.exit ≡ none → CanStep e l q ⊎ StuckAt e l q) × ExitOk q.exit
  run_ends m p q n s ms reach alive there off r =
      let inv = Reach-Inv e l (main_of-IsPlan m) reach in
      let a = inv.alive alive in
      let start : Off p = record {
        inv = inv;
        past = live-Past a.phase p.script s ms a.plan (at_point e l a refl there).1 off;
        off = subst ObjectOff (sym there) off;
      } in
      let (end, used) = run_down (Step e) work Off step_down r start in
      (omega (arith, used), alive_can e l q end.inv, end.inv.exit_ok)
