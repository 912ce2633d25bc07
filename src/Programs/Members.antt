-- ===== src/Programs/Members.antt =====
-- Which members of a system are still there while its threads run, in the programs of src/.
use fix_feed_simulator.Prelude.{◌≡◌, refl, ◌⊎◌, inr, List, [], ◌∷◌, ◌++◌, none}
use fix_feed_simulator.Programs.Script.{
  Member, threads, after_threads, destruction, cv_mutex, cv_monitor, running_flag, Engine, live,
  Program, Reach,
}
use fix_feed_simulator.Programs.Laws.{Laws}
use fix_feed_simulator.Programs.Mains.{Producer, main_of}
use fix_feed_simulator.Programs.Plan.{
  Phase, before, made, up, stopping, stopped, gone, main_of-IsPlan,
}
use fix_feed_simulator.Programs.Phases.{MembersOk, ObjectOk}
use fix_feed_simulator.Programs.Invariant.{Reach-Inv, at_point}

module _ {ℓ} {S : Type ℓ} (e : Engine S) (l : Laws e) where
  whole-Ok : (s : S) (ms : List Member) → ms ≡ destruction → MembersOk e l s ms
  whole-Ok s ms whole = inr (cv_mutex ∷ cv_monitor ∷ running_flag ∷ [], whole)

  live-MembersOk :
      (phase : Phase) (s : S) (ms : List Member)
      → ObjectOk e l phase (live s ms)
      → MembersOk e l s ms
  live-MembersOk up s ms ok = whole-Ok s ms ok.2
  live-MembersOk stopping s ms ok = whole-Ok s ms ok.2
  live-MembersOk stopped s ms ok = ok.2
  live-MembersOk before s ms ok = absurd ok.lower
  live-MembersOk made s ms ok = absurd ok.lower
  live-MembersOk gone s ms ok = absurd ok.lower

  -- In each of the four programs, with any system that keeps the laws of Programs.Laws, while it
  -- has not come to its exit: as long as one of the threads of the live system has not returned,
  -- generators, queue, sender and both counters are still there, behind the threads in the order of
  -- destruction.
  pub members_outlive :
      (m : Producer) {p : Program S} (s : S) (ms : List Member)
      → Reach e (main_of m) p
      → p.exit ≡ none
      → p.object ≡ live s ms
      → e.Joined s ⊎ ((front : List Member) × (ms ≡ front ++ threads ∷ after_threads))
  members_outlive m {p} s ms reach alive there =
      let a = (Reach-Inv e l (main_of-IsPlan m) reach).alive alive in
      live-MembersOk a.phase s ms (at_point e l a refl there).1
