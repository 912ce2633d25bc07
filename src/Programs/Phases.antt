-- ===== src/Programs/Phases.antt =====
-- Where the system of a program of src/ stands in each phase, and what an action of `main` makes of it.
use fix_feed_simulator.Prelude.{ℕ, ◌≡◌, refl, ◌∙◌, ◌⊎◌, inl, inr, List, [], ◌∷◌, ◌++◌, true, false}
use fix_feed_simulator.Programs.Script.{
  Signal, Action, handle, construct, launch, wait_flag, call_stop, pause, end_scope, tear_down,
  give, Member, cv_mutex, cv_monitor, running_flag, threads, after_threads, destruction, Engine,
  Object, absent, constructed, live, destructor,
}
use mathlib.Core.Logic.{Lift}
use fix_feed_simulator.Programs.Laws.{Laws}
use fix_feed_simulator.Programs.Plan.{
  Phase, before, made, up, stopping, stopped, gone, IsPlan, handle_plan, construct_plan,
  launch_plan, wait_plan, stop_plan, stopping_plan, pause_plan, scope_plan, tear_plan, give_plan,
}

module _ {ℓ} {S : Type ℓ} (e : Engine S) (l : Laws e) where
  -- The threads are joined, or what they use is still there.
  abbrev pub MembersOk : S → List Member → Type ℓ
  MembersOk s ms = e.Joined s ⊎ ((front : List Member) × (ms ≡ front ++ threads ∷ after_threads))

  -- What is known of the object in a phase.
  abbrev pub ObjectOk : Phase → Object S → Type ℓ
  ObjectOk made (constructed s) = e.First s
  ObjectOk up (live s ms) = l.Good s × (e.running s ≡ true) × (ms ≡ destruction)
  ObjectOk stopping (live s ms) = l.Good s × (e.running s ≡ false) × (ms ≡ destruction)
  ObjectOk stopped (live s ms) = l.Good s × e.Returned s × MembersOk s ms
  ObjectOk before absent = Unit {ℓ}
  ObjectOk gone absent = Unit {ℓ}
  ObjectOk _ _ = Lift {0, ℓ} ⊥

  -- A phase that fits.
  abbrev pub Fits : List Action → Object S → Type ℓ
  Fits script o = (phase : Phase) × IsPlan phase script × ObjectOk phase o

  pub handle-Fits :
      {phase : Phase} {signal : Signal} {rest : List Action} (o : Object S)
      → IsPlan phase (handle signal ∷ rest)
      → ObjectOk phase o
      → Fits rest o
  handle-Fits o (handle_plan plan) ok = (before, plan, ok)

  pub construct-Fits :
      {phase : Phase} {rest : List Action} (s : S)
      → IsPlan phase (construct ∷ rest)
      → e.First s
      → Fits rest (constructed s)
  construct-Fits s (construct_plan plan) first = (made, plan, first)

  pub launch-Fits :
      {phase : Phase} {rest : List Action} (s : S)
      → IsPlan phase (launch ∷ rest)
      → ObjectOk phase (constructed s)
      → Fits rest (live s destruction)
  launch-Fits s (launch_plan plan) ok = (up, plan, (l.first-Good s ok, l.first-running s ok, refl))

  pub wait-Fits :
      {phase : Phase} {rest : List Action} (o : Object S)
      → IsPlan phase (wait_flag ∷ rest)
      → ObjectOk phase o
      → Fits rest o
  wait-Fits o (wait_plan plan) ok = (up, plan, ok)

  pub stop-Fits :
      {phase : Phase} {rest : List Action} (s t : S) (ms : List Member)
      → IsPlan phase (call_stop ∷ rest)
      → ObjectOk phase (live s ms)
      → e.StopStep s t
      → Fits (call_stop ∷ rest) (live t ms)
  stop-Fits s t ms (stop_plan plan) (good, run, whole) st =
      (stopping, stopping_plan plan, (l.stop-Good s t st good, l.stop-running s t st good, whole))
  stop-Fits s t ms (stopping_plan plan) (good, run, whole) st =
      (stopping, stopping_plan plan, (l.stop-Good s t st good, l.stop-running s t st good, whole))

  pub return-Fits :
      {phase : Phase} {rest : List Action} (s : S) (ms : List Member)
      → IsPlan phase (call_stop ∷ rest)
      → ObjectOk phase (live s ms)
      → e.Returned s
      → Fits rest (live s ms)
  return-Fits s ms (stop_plan plan) (good, run, whole) done =
      (stopped, plan, (good, done, inr (cv_mutex ∷ cv_monitor ∷ running_flag ∷ [], whole)))
  return-Fits s ms (stopping_plan plan) (good, run, whole) done =
      (stopped, plan, (good, done, inr (cv_mutex ∷ cv_monitor ∷ running_flag ∷ [], whole)))

  pub pause-Fits :
      {phase : Phase} {rest : List Action} (o : Object S)
      → IsPlan phase (pause ∷ rest)
      → ObjectOk phase o
      → Fits rest o
  pause-Fits o (pause_plan plan) ok = (stopped, plan, ok)

  pub scope-Fits :
      {phase : Phase} {rest : List Action} (s : S) (ms : List Member)
      → IsPlan phase (end_scope ∷ rest)
      → ObjectOk phase (live s ms)
      → Fits (destructor (e.running s) rest) (live s ms)
  scope-Fits s ms (scope_plan plan) (good, done, members) =
      rw (l.Returned-running s good done) (stopped, tear_plan plan, (good, done, members))

  MembersOk-tear :
      (s : S) (m : Member) (ms : List Member)
      → MembersOk s (m ∷ ms)
      → (m ≡ threads → e.Joined s)
      → MembersOk s ms
  MembersOk-tear s m ms (inl joined) join = inl joined
  MembersOk-tear s m ms (inr ([], shape)) join = inl (join cc)
  MembersOk-tear s m ms (inr (n ∷ front, shape)) join = inr (front, cc)

  pub tear-Fits :
      {phase : Phase} {rest : List Action} (s : S) (m : Member) (ms : List Member)
      → IsPlan phase (tear_down ∷ rest)
      → ObjectOk phase (live s (m ∷ ms))
      → (m ≡ threads → e.Joined s)
      → Fits (tear_down ∷ rest) (live s ms)
  tear-Fits s m ms (tear_plan plan) (good, done, members) join =
      (stopped, tear_plan plan, (good, done, MembersOk-tear s m ms members join))

  pub torn-Fits :
      {phase : Phase} {rest : List Action} (s : S)
      → IsPlan phase (tear_down ∷ rest)
      → Fits rest absent
  torn-Fits s (tear_plan plan) = (gone, plan, tt)

  pub give_code :
      {phase : Phase} {code : ℕ} {rest : List Action} → IsPlan phase (give code ∷ rest) → code ≡ 0
  give_code give_plan = refl

  pub threads-Fits :
      (phase : Phase) (script : List Action) (s t : S) (ms : List Member)
      → IsPlan phase script
      → ObjectOk phase (live s ms)
      → e.ThreadStep s t
      → Fits script (live t ms)
  threads-Fits up script s t ms plan (good, run, whole) st =
      (up, plan, (l.thread-Good s t st good, l.thread-running s t st ∙ run, whole))
  threads-Fits stopping script s t ms plan (good, run, whole) st =
      (stopping, plan, (l.thread-Good s t st good, l.thread-running s t st ∙ run, whole))
  threads-Fits stopped script s t ms plan (good, done, inl joined) st = (
    stopped,
    plan,
    (l.thread-Good s t st good, l.thread-Returned s t st done, inl (l.thread-Joined s t st joined)),
  )
  threads-Fits stopped script s t ms plan (good, done, inr there) st =
      (stopped, plan, (l.thread-Good s t st good, l.thread-Returned s t st done, inr there))
  threads-Fits before script s t ms plan ok st = absurd ok.lower
  threads-Fits made script s t ms plan ok st = absurd ok.lower
  threads-Fits gone script s t ms plan ok st = absurd ok.lower
