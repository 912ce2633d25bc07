-- ===== src/Programs/Invariant.antt =====
-- What holds of a program of src/ in every state, whatever its threads and the signals do.
use fix_feed_simulator.Prelude.{◌≡◌, refl, sym, subst, List, Option, none, some}
use fix_feed_simulator.Programs.Script.{
  Action, Engine, Object, live, Exit, returned, killed, Program, destructor, Step, handles_signal,
  constructs, launches, sleeps_on, wakes, stops, stop_returns, pauses, scope_ends, tears, torn,
  gives, threads_step, signalled, dies, Reach, here, later,
}
use fix_feed_simulator.Programs.Laws.{Laws}
use fix_feed_simulator.Programs.Plan.{Phase, before, IsPlan}
use fix_feed_simulator.Programs.Phases.{
  ObjectOk, Fits, handle-Fits, construct-Fits, launch-Fits, wait-Fits, stop-Fits, return-Fits,
  pause-Fits, scope-Fits, tear-Fits, torn-Fits, give_code, threads-Fits,
}

abbrev pub ExitOk : Option Exit → Type 0
ExitOk (some (returned code)) = code ≡ 0
ExitOk (some (killed signal)) = Unit
ExitOk none = Unit

module _ {ℓ} {S : Type ℓ} (e : Engine S) (l : Laws e) where
  pub record Alive (p : Program S) : Type ℓ where
    pub phase : Phase
    pub plan : IsPlan phase p.script
    pub object_ok : ObjectOk e l phase p.object

  pub record Inv (p : Program S) : Type ℓ where
    pub alive : p.exit ≡ none → Alive p
    pub exit_ok : ExitOk p.exit

  -- The two equations of a step say where the invariant stands.
  pub at_point :
      {p : Program S} {script : List Action} {o : Object S} (a : Alive p)
      → p.script ≡ script
      → p.object ≡ o
      → IsPlan a.phase script × ObjectOk e l a.phase o
  at_point a at there =
      (subst (IsPlan a.phase) at a.plan, subst (ObjectOk e l a.phase) there a.object_ok)

  to_Inv : (p : Program S) → Fits e l p.script p.object → ExitOk p.exit → Inv p
  to_Inv p (phase, plan, ok) exit_ok = record {
    alive = λ _. record { phase = phase; plan = plan; object_ok = ok };
    exit_ok = exit_ok;
  }

  pub Step-Inv : {p q : Program S} → Step e p q → Inv p → Inv q
  Step-Inv {p} (handles_signal signal rest alive at) inv =
      let a = inv.alive alive in
      to_Inv _ (handle-Fits e l p.object (at_point a at refl).0 a.object_ok) inv.exit_ok
  Step-Inv {p} (constructs s rest alive at first) inv =
      to_Inv _ (construct-Fits e l s (at_point (inv.alive alive) at refl).0 first) inv.exit_ok
  Step-Inv {p} (launches s rest alive at there) inv =
      let (plan, ok) = at_point (inv.alive alive) at there in
      to_Inv _ (launch-Fits e l s plan ok) inv.exit_ok
  Step-Inv {p} (sleeps_on rest alive at raised) inv = inv
  Step-Inv {p} (wakes rest alive at down) inv =
      let a = inv.alive alive in
      to_Inv _ (wait-Fits e l p.object (at_point a at refl).0 a.object_ok) inv.exit_ok
  Step-Inv {p} (stops s t ms rest alive at there st) inv =
      let (plan, ok) = at_point (inv.alive alive) at there in
      to_Inv _
        (subst (λ actions. Fits e l actions (live t ms)) (sym at) (stop-Fits e l s t ms plan ok st))
        inv.exit_ok
  Step-Inv {p} (stop_returns s ms rest alive at there done) inv =
      let (plan, ok) = at_point (inv.alive alive) at there in
      to_Inv _ (subst (Fits e l rest) (sym there) (return-Fits e l s ms plan ok done)) inv.exit_ok
  Step-Inv {p} (pauses rest alive at) inv =
      let a = inv.alive alive in
      to_Inv _ (pause-Fits e l p.object (at_point a at refl).0 a.object_ok) inv.exit_ok
  Step-Inv {p} (scope_ends s ms rest alive at there) inv =
      let (plan, ok) = at_point (inv.alive alive) at there in
      to_Inv _
        (subst (Fits e l (destructor (e.running s) rest)) (sym there) (scope-Fits e l s ms plan ok))
        inv.exit_ok
  Step-Inv {p} (tears s m ms rest alive at there join) inv =
      let (plan, ok) = at_point (inv.alive alive) at there in
      to_Inv _
        (subst (λ actions. Fits e l actions (live s ms)) (sym at)
          (tear-Fits e l s m ms plan ok join))
        inv.exit_ok
  Step-Inv {p} (torn s rest alive at there) inv =
      to_Inv _ (torn-Fits e l s (at_point (inv.alive alive) at refl).0) inv.exit_ok
  Step-Inv {p} (gives code rest alive at) inv = record {
    alive = λ same. cc;
    exit_ok = give_code e l (at_point (inv.alive alive) at refl).0;
  }
  Step-Inv {p} (threads_step s t ms alive there st) inv =
      let a = inv.alive alive in
      to_Inv _ (threads-Fits e l a.phase p.script s t ms a.plan (at_point a refl there).1 st)
        inv.exit_ok
  Step-Inv {p} (signalled signal alive raised handled) inv =
      let a = inv.alive alive in to_Inv _ (a.phase, a.plan, a.object_ok) inv.exit_ok
  Step-Inv {p} (dies signal alive not_handled) inv = record { alive = λ same. cc; exit_ok = tt }

  pub Reach-Inv :
      {script : List Action} {p : Program S} → IsPlan before script → Reach e script p → Inv p
  Reach-Inv plan here = to_Inv _ (before, plan, tt) tt
  Reach-Inv plan (later r st) = Step-Inv st (Reach-Inv plan r)
