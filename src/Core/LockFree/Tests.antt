-- ===== src/Core/LockFree/Tests.antt =====
-- The lock-free ring at concrete inputs: two slots, counters about to wrap, and a schedule of the
-- two threads.
use fix_feed_simulator.Prelude.{
  ℕ, ◌^◌, ◌-◌, ◌+◌, ◌≤◌, ◌≡◌, ◌≢◌, refl, arith, List, [], ◌∷◌, ◌++◌, true, false, none, some,
  length,
}
use fix_feed_simulator.Core.Queue
use fix_feed_simulator.Core.Queue.{Call, put, get, stored, taken, offer, poll}
use fix_feed_simulator.Core.Runs.{none_yet, and_then}
use fix_feed_simulator.Core.LockFree.{size, Ring, IsCapacity, slot, push, pop}
use fix_feed_simulator.Core.LockFree.Refine.{Represents, run, run_refines}
use mathlib.Core.Equiv.{IsEquiv}
use native.Mathlib.Nat.{ℕ_set}
use fix_feed_simulator.Core.LockFree.Spsc.Linear.{History, linearizable}
use fix_feed_simulator.Core.LockFree.Spsc.Size.{size_concurrent}
use fix_feed_simulator.Core.LockFree.View.{content, rings_are_queues}
use fix_feed_simulator.Core.LockFree.Spsc.{
  System, push_load_own, push_load_other, push_write, push_publish, pop_load_own, pop_load_other,
  Reach, here, later,
}
use fix_feed_simulator.Core.LockFree.Spsc.Safety.{no_data_race}

-- 7 was stored just before the write counter wrapped, 8 just after.
abbrev wrapped : Ring ℕ
wrapped = record { write_index = 1; read_index = 2 ^ 64 - 1; buffer = 8 ∷ 7 ∷ [] }

abbrev two : IsCapacity 2
two = (1, omega arith, refl)

abbrev pair : List ℕ
pair = 7 ∷ 8 ∷ []

wrapped-Represents : Represents 2 wrapped (2 ^ 64 - 1) pair
wrapped-Represents = (omega arith, (refl, (refl, tt)))

pop-wrapped : pop 2 wrapped 0 ≡ (true, 7, record wrapped { read_index = 0 })
unfolding pop
pop-wrapped = refl

push-wrapped : push 2 wrapped 9 ≡ (false, wrapped)
unfolding push
push-wrapped = refl

abbrev script : List (Call ℕ)
script = put 9 ∷ get ∷ put 9 ∷ get ∷ get ∷ get ∷ []

run_refines_example : run 2 two wrapped 0 script ≡ Queue.run 2 pair script
run_refines_example = run_refines 2 two script wrapped (2 ^ 64 - 1) pair 0 wrapped-Represents

run-script :
    run 2 two wrapped 0 script
    ≡ stored false
      ∷ taken (some 7)
      ∷ stored true
      ∷ taken (some 8)
      ∷ taken (some 9)
      ∷ taken none
      ∷ []
unfolding run push pop
run-script = refl

record Run : Type 0 where
  last : System ℕ
  reach : Reach 2 (0 ∷ 0 ∷ []) last

-- 7 is stored; the producer is about to write 8 while the consumer is about to read 7.
abbrev crossing : Run
crossing = record {
  last = _;
  reach =
      later
        (later
          (later
            (later
              (later
                (later
                  (later (later here (push_load_own 7 refl))
                    (push_load_other 7 0 0 refl (omega arith) (omega arith)))
                  (push_write 7 0 0 refl refl))
                (push_publish 7 0 refl))
              (push_load_own 8 refl))
            (push_load_other 8 1 0 refl (omega arith) (omega arith)))
          (pop_load_own refl))
        (pop_load_other 0 1 refl (omega arith) (omega arith));
}

no_data_race_example : slot 2 1 ≢ slot 2 0
no_data_race_example =
    no_data_race 2 two (0 ∷ 0 ∷ []) refl crossing.reach 8 1 0 refl refl 0 1 refl refl

rings_are_queues_example : IsEquiv (content ℕ 2 two ℕ_set (0 ∷ 0 ∷ []) refl)
rings_are_queues_example = rings_are_queues ℕ 2 two ℕ_set (0 ∷ 0 ∷ []) refl

linearizable_example :
    (q : List ℕ) × History 2 crossing.last.sent crossing.last.received q
    × (crossing.last.sent ≡ crossing.last.received ++ q)
    × (length q ≤ 2)
linearizable_example = linearizable 2 two (0 ∷ 0 ∷ []) refl crossing.reach

-- `size()` by a third thread: it loads the read counter at once, and the write counter after the
-- producer has stored 8.
abbrev two_stored : Ring ℕ
two_stored = record { write_index = 2; read_index = 0; buffer = 7 ∷ 8 ∷ [] }

size_concurrent_example :
    (size crossing.last.ring two_stored + 0 ≡ 2)
    × (size crossing.last.ring two_stored ≤ 2 + (0 - 0))
size_concurrent_example =
    size_concurrent 2 two (0 ∷ 0 ∷ []) refl crossing.reach
      (and_then (and_then none_yet (push_write 8 1 0 refl refl)) (push_publish 8 1 refl)) two_stored
      2 refl (omega arith) (omega arith) (omega arith)
