-- ===== src/Core/Agree/Tests.antt =====
-- Both rings with two slots, of which a third item finds none.
use fix_feed_simulator.Prelude.{ℕ, ◌≡◌, refl, arith, List, [], ◌∷◌, true, false, none, some}
use fix_feed_simulator.Core.Queue.{Call, put, get, stored, taken}
use fix_feed_simulator.Core.LockFree.{IsCapacity}
use fix_feed_simulator.Core.LockFree
use fix_feed_simulator.Core.LockFree.Refine
use fix_feed_simulator.Core.Blocking
use fix_feed_simulator.Core.Agree.{run, rings_agree, try_push, try_pop}

abbrev two : IsCapacity 2
two = (1, omega arith, refl)

abbrev script : List (Call ℕ)
script = get ∷ put 7 ∷ put 8 ∷ put 9 ∷ get ∷ get ∷ get ∷ []

run-script :
    run 2 (Blocking.init (4 ∷ 5 ∷ [])) 0 script
    ≡ taken none
      ∷ stored true
      ∷ stored true
      ∷ stored false
      ∷ taken (some 7)
      ∷ taken (some 8)
      ∷ taken none
      ∷ []
unfolding run try_push try_pop Blocking.push Blocking.pop
run-script = refl

rings_agree_example :
    LockFree.Refine.run 2 two (LockFree.init (1 ∷ 2 ∷ [])) 3 script
    ≡ run 2 (Blocking.init (4 ∷ 5 ∷ [])) 0 script
rings_agree_example = rings_agree 2 two (1 ∷ 2 ∷ []) (4 ∷ 5 ∷ []) refl refl script 3 0
