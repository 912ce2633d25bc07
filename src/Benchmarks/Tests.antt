-- ===== src/Benchmarks/Tests.antt =====
-- A transfer of tests/benchmark_throughput.cpp of two items over a ring of one slot, and the
-- statistics of three latencies.
use fix_feed_simulator.Prelude.{
  ℕ, some, ◌<◌, ◌+◌, ◌*◌, ◌≤◌, ◌≡◌, refl, arith, ◌⊎◌, List, [], ◌∷◌, ◌++◌,
}
use fix_feed_simulator.Core.Blocking.{push, pop}
use fix_feed_simulator.Benchmarks.Transfer.{
  Transfer, push_calls, push_goes, push_waits, push_notifies, pop_calls, pop_goes, pop_waits,
  pop_notifies, pop_spurious, Reach, here, later, woken_up,
}
use fix_feed_simulator.Benchmarks.Percentile.{
  sort, quantile, Stats, order_statistics, detailed_stats,
}
use fix_feed_simulator.Benchmarks.Percentile.Shares.{at_most, below, detailed_stats_lem}
use fix_feed_simulator.Benchmarks.Transfer.Ends.{CanStep, HasEnded, transfer_ends}

abbrev orders : List ℕ
orders = 7 ∷ 8 ∷ []

record Moved : Type 0 where
  steps : ℕ
  wakeups : ℕ
  last : Transfer ℕ
  reach : Reach 1 (0 ∷ []) 0 orders steps wakeups last

-- The consumer waits, is woken for no reason, waits again, and is woken by the first push; the
-- second push waits for room.
moved : Moved
unfolding push pop
moved = record {
  steps = _;
  wakeups = _;
  last = _;
  reach =
      later
        (later
          (later
            (later
              (later
                (later
                  (later
                    (later
                      (woken_up (later (later here (pop_calls 1 refl refl)) (pop_waits 0 refl refl))
                        pop_spurious)
                      (pop_waits 0 refl refl))
                    (push_calls 7 (8 ∷ []) refl refl))
                  (push_goes _ _ refl refl))
                (push_notifies refl))
              (push_calls 8 [] refl refl))
            (push_waits refl refl))
          (pop_goes 0 _ _ _ refl refl))
        (pop_notifies refl);
}

transfer_ends_example :
    (moved.steps ≤ 8 * 2 + moved.wakeups)
    × ((left : List ℕ) × (orders ≡ moved.last.received ++ left))
    × (CanStep 1 moved.last ⊎ HasEnded 1 orders moved.last)
transfer_ends_example =
    transfer_ends 1 (0 ∷ []) 0 orders (omega arith) refl (omega arith) moved.reach

abbrev three : List ℕ
three = 30 ∷ 10 ∷ 20 ∷ []

detailed_stats_lem_example :
    (s : Stats) × (detailed_stats three ≡ some s)
    × (s.min_val ≤ s.median)
    × (s.median ≤ s.p99)
    × (s.p99 ≤ s.max_val)
    × (3 < 2 * at_most s.median three)
    × (2 * below s.median three ≤ 3)
    × (99 * 3 < 100 * at_most s.p99 three)
    × (100 * below s.p99 three ≤ 99 * 3)
    × (below s.min_val three ≡ 0)
    × (at_most s.max_val three ≡ 3)
detailed_stats_lem_example = detailed_stats_lem 30 (10 ∷ 20 ∷ [])

stats_of_three :
    detailed_stats three ≡ some (record { min_val = 10; median = 20; p99 = 30; max_val = 30 })
unfolding detailed_stats order_statistics quantile sort
stats_of_three = refl
