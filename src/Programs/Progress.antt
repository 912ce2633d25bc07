-- ===== src/Programs/Progress.antt =====
-- The programs of src/ can go on until they exit, as far as their system can.
use fix_feed_simulator.Prelude.{
  ◌≡◌, refl, sym, subst, ◌⊎◌, inl, inr, List, [], ◌∷◌, Bool-cases, none,
}
use fix_feed_simulator.Programs.Script.{
  Action, wait_flag, call_stop, tear_down, Member, Engine, Object, absent, constructed, live,
  Program, Step, handles_signal, constructs, launches, sleeps_on, wakes, stops, stop_returns,
  pauses, scope_ends, tears, torn, gives, threads_step, signalled, dies, Reach,
}
use fix_feed_simulator.Programs.Laws.{Laws}
use fix_feed_simulator.Programs.Plan.{
  Phase, before, made, up, stopping, stopped, gone, IsPlan, handle_plan, construct_plan,
  launch_plan, wait_plan, stop_plan, stopping_plan, pause_plan, scope_plan, tear_plan, give_plan,
  main_of-IsPlan,
}
use fix_feed_simulator.Programs.Mains.{Producer, main_of}
use fix_feed_simulator.Programs.Phases.{ObjectOk}
use fix_feed_simulator.Programs.Invariant.{ExitOk, Inv, Reach-Inv, at_point}

-- `main` is in the call of `stop`, or destroys the members, and waits for the threads in either.
abbrev pub Waits : List Action → Type 0
Waits (call_stop ∷ rest) = Unit
Waits (tear_down ∷ rest) = Unit
Waits _ = ⊥

module _ {ℓ} {S : Type ℓ} (e : Engine S) (l : Laws e) where
  good_of : (phase : Phase) (s : S) (ms : List Member) → ObjectOk e l phase (live s ms) → l.Good s
  good_of up s ms ok = ok.0
  good_of stopping s ms ok = ok.0
  good_of stopped s ms ok = ok.0
  good_of before s ms ok = absurd ok.lower
  good_of made s ms ok = absurd ok.lower
  good_of gone s ms ok = absurd ok.lower

  pub good_at :
      {p : Program S} (s : S) (ms : List Member)
      → Inv e l p
      → p.exit ≡ none
      → p.object ≡ live s ms
      → l.Good s
  good_at s ms inv alive there =
      let a = inv.alive alive in good_of a.phase s ms (at_point e l a refl there).1

  -- Where the system may not be able to go on.
  abbrev pub StuckAt : Program S → Type ℓ
  StuckAt p = (s : S) × (ms : List Member) × (p.object ≡ live s ms) × l.Stuck s

  -- Whether a step is one that the program owes to itself: of `main`, or of a thread that `main` waits
  -- for. A signal is not, whether it has a handler or not.
  abbrev pub IsOwn : (p q : Program S) → Step e p q → Type 0
  IsOwn p q (threads_step s t ms alive there st) = Waits p.script
  IsOwn p q (signalled signal alive raised handled) = ⊥
  IsOwn p q (dies signal alive not_handled) = ⊥
  IsOwn p q (handles_signal signal rest alive at) = Unit
  IsOwn p q (constructs s rest alive at first) = Unit
  IsOwn p q (launches s rest alive at there) = Unit
  IsOwn p q (sleeps_on rest alive at raised) = Unit
  IsOwn p q (wakes rest alive at down) = Unit
  IsOwn p q (stops s t ms rest alive at there st) = Unit
  IsOwn p q (stop_returns s ms rest alive at there done) = Unit
  IsOwn p q (pauses rest alive at) = Unit
  IsOwn p q (scope_ends s ms rest alive at there) = Unit
  IsOwn p q (tears s m ms rest alive at there join) = Unit
  IsOwn p q (torn s rest alive at there) = Unit
  IsOwn p q (gives code rest alive at) = Unit

  -- The program can go on by itself.
  abbrev pub CanStep : Program S → Type ℓ
  CanStep p = (q : Program S) × (st : Step e p q) × IsOwn p q st

  module _ (p : Program S) (alive : p.exit ≡ none) where
    -- `main` in the loop, at the call of `stop`, and at the destruction of a member.
    wait_can : (rest : List Action) → p.script ≡ wait_flag ∷ rest → CanStep p
    wait_can rest at = elim (Bool-cases p.flag) [
      | inl raised ↦ (_, sleeps_on rest alive at raised, tt)
      | inr down ↦ (_, wakes rest alive at down, tt)
    ]

    stop_can :
        (s : S) (ms : List Member) (rest : List Action)
        → p.script ≡ call_stop ∷ rest
        → p.object ≡ live s ms
        → l.Good s
        → CanStep p ⊎ StuckAt p
    stop_can s ms rest at there good = elim (l.can_stop s good) [
      | inl done ↦ inl (_, stop_returns s ms rest alive at there done, tt)
      | inr (inl (t, st)) ↦ inl (_, stops s t ms rest alive at there st, tt)
      | inr (inr (inl (t, st))) ↦
          inl (_, threads_step s t ms alive there st, subst Waits (sym at) tt)
      | inr (inr (inr stuck)) ↦ inr (s, ms, there, stuck)
    ]

    tear_can :
        (s : S) (ms : List Member) (rest : List Action)
        → p.script ≡ tear_down ∷ rest
        → p.object ≡ live s ms
        → l.Good s
        → e.Returned s
        → CanStep p ⊎ StuckAt p
    tear_can s [] rest at there good done = inl (_, torn s rest alive at there, tt)
    tear_can s (m ∷ ms) rest at there good done = elim (l.can_thread s good done) [
      | inl joined ↦ inl (_, tears s m ms rest alive at there (λ _. joined), tt)
      | inr (inl (t, st)) ↦
          inl (_, threads_step s t (m ∷ ms) alive there st, subst Waits (sym at) tt)
      | inr (inr stuck) ↦ inr (s, m ∷ ms, there, stuck)
    ]

    can :
        {phase : Phase} (script : List Action) (o : Object S)
        → p.script ≡ script
        → p.object ≡ o
        → IsPlan phase script
        → ObjectOk e l phase o
        → CanStep p ⊎ StuckAt p
    can _ o at there (handle_plan plan) ok = inl (_, handles_signal _ _ alive at, tt)
    can _ o at there (construct_plan plan) ok =
        inl (_, constructs l.first _ alive at l.first-First, tt)
    can _ (constructed s) at there (launch_plan plan) ok = inl (_, launches s _ alive at there, tt)
    can _ o at there (wait_plan plan) ok = inl (wait_can _ at)
    can _ (live s ms) at there (stop_plan plan) ok = stop_can s ms _ at there ok.0
    can _ (live s ms) at there (stopping_plan plan) ok = stop_can s ms _ at there ok.0
    can _ o at there (pause_plan plan) ok = inl (_, pauses _ alive at, tt)
    can _ (live s ms) at there (scope_plan plan) ok = inl (_, scope_ends s ms _ alive at there, tt)
    can _ (live s ms) at there (tear_plan plan) ok = tear_can s ms _ at there ok.0 ok.1
    can _ o at there give_plan ok = inl (_, gives 0 _ alive at, tt)
    can _ absent at there (launch_plan plan) ok = absurd ok.lower
    can _ (live s ms) at there (launch_plan plan) ok = absurd ok.lower
    can _ absent at there (stop_plan plan) ok = absurd ok.lower
    can _ (constructed s) at there (stop_plan plan) ok = absurd ok.lower
    can _ absent at there (stopping_plan plan) ok = absurd ok.lower
    can _ (constructed s) at there (stopping_plan plan) ok = absurd ok.lower
    can _ absent at there (scope_plan plan) ok = absurd ok.lower
    can _ (constructed s) at there (scope_plan plan) ok = absurd ok.lower
    can _ absent at there (tear_plan plan) ok = absurd ok.lower
    can _ (constructed s) at there (tear_plan plan) ok = absurd ok.lower

  pub alive_can : (p : Program S) → Inv e l p → p.exit ≡ none → CanStep p ⊎ StuckAt p
  alive_can p inv alive =
      let a = inv.alive alive in can p alive p.script p.object refl refl a.plan a.object_ok

  -- The same for every state of a program, and how it exits.
  pub goes_on :
      (m : Producer) {p : Program S}
      → Reach e (main_of m) p
      → (p.exit ≡ none → CanStep p ⊎ StuckAt p) × ExitOk p.exit
  goes_on m {p} r = let inv = Reach-Inv e l (main_of-IsPlan m) r in (alive_can p inv, inv.exit_ok)
