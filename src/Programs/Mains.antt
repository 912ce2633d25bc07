-- ===== src/Programs/Mains.antt =====
-- The four `main`s of src/ that own a market data system.
use fix_feed_simulator.Prelude.{List, [], ◌∷◌}
use fix_feed_simulator.Programs.Script.{
  sigint, sigterm, Action, handle, construct, launch, wait_flag, call_stop, pause, end_scope, give,
}

-- src/producer_rw.cpp and src/producer_gbm.cpp: the system lives in the `try` block.
abbrev pub rw_main : List Action
rw_main = handle sigint ∷ construct ∷ launch ∷ wait_flag ∷ call_stop ∷ end_scope ∷ give 0 ∷ []

abbrev pub gbm_main : List Action
gbm_main = handle sigint ∷ construct ∷ launch ∷ wait_flag ∷ call_stop ∷ end_scope ∷ give 0 ∷ []

-- src/producer_rw_nonblocking.cpp and src/producer_gbm_nonblocking.cpp: the system lives until `main`
-- ends.
abbrev pub rw_nonblocking_main : List Action
rw_nonblocking_main =
    handle sigint
    ∷ handle sigterm
    ∷ construct
    ∷ launch
    ∷ wait_flag
    ∷ call_stop
    ∷ pause
    ∷ end_scope
    ∷ give 0
    ∷ []

abbrev pub gbm_nonblocking_main : List Action
gbm_nonblocking_main =
    handle sigint
    ∷ handle sigterm
    ∷ construct
    ∷ launch
    ∷ wait_flag
    ∷ call_stop
    ∷ pause
    ∷ end_scope
    ∷ give 0
    ∷ []

-- The programs, by the name of their file.
pub data Producer : Type 0 where
  rw gbm rw_nonblocking gbm_nonblocking : Producer

abbrev pub main_of : Producer → List Action
main_of rw = rw_main
main_of gbm = gbm_main
main_of rw_nonblocking = rw_nonblocking_main
main_of gbm_nonblocking = gbm_nonblocking_main
