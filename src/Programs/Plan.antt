-- ===== src/Programs/Plan.antt =====
-- The order in which a `main` of src/ may act on its system.
use fix_feed_simulator.Prelude.{List, [], ◌∷◌}
use fix_feed_simulator.Programs.Script.{
  Signal, Action, handle, construct, launch, wait_flag, call_stop, pause, end_scope, tear_down,
  give,
}
use fix_feed_simulator.Programs.Mains.{Producer, rw, gbm, rw_nonblocking, gbm_nonblocking, main_of}

-- Before the system is there; constructed; live; while `stop` is called; after that; without a
-- system again.
pub data Phase : Type 0 where
  before made up stopping stopped gone : Phase

-- A script that can be run from a phase on: what may be done in which phase, and what comes after it.
pub data IsPlan : Phase → List Action → Type 0 where
  handle_plan :
      {signal : Signal} {rest : List Action}
      → IsPlan before rest
      → IsPlan before (handle signal ∷ rest)
  construct_plan : {rest : List Action} → IsPlan made rest → IsPlan before (construct ∷ rest)
  launch_plan : {rest : List Action} → IsPlan up rest → IsPlan made (launch ∷ rest)
  wait_plan : {rest : List Action} → IsPlan up rest → IsPlan up (wait_flag ∷ rest)
  stop_plan : {rest : List Action} → IsPlan stopped rest → IsPlan up (call_stop ∷ rest)
  stopping_plan : {rest : List Action} → IsPlan stopped rest → IsPlan stopping (call_stop ∷ rest)
  pause_plan : {rest : List Action} → IsPlan stopped rest → IsPlan stopped (pause ∷ rest)
  scope_plan : {rest : List Action} → IsPlan gone rest → IsPlan stopped (end_scope ∷ rest)
  tear_plan : {rest : List Action} → IsPlan gone rest → IsPlan stopped (tear_down ∷ rest)
  give_plan : IsPlan gone (give 0 ∷ [])

-- The four programs keep to it.
pub main_of-IsPlan : (m : Producer) → IsPlan before (main_of m)
main_of-IsPlan rw =
    handle_plan (construct_plan (launch_plan (wait_plan (stop_plan (scope_plan give_plan)))))
main_of-IsPlan gbm =
    handle_plan (construct_plan (launch_plan (wait_plan (stop_plan (scope_plan give_plan)))))
main_of-IsPlan rw_nonblocking = handle_plan (
    handle_plan
      (construct_plan (launch_plan (wait_plan (stop_plan (pause_plan (scope_plan give_plan)))))))
main_of-IsPlan gbm_nonblocking = handle_plan (
    handle_plan
      (construct_plan (launch_plan (wait_plan (stop_plan (pause_plan (scope_plan give_plan)))))))
