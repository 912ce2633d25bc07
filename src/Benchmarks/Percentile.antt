-- ===== src/Benchmarks/Percentile.antt =====
-- The order statistics of tests/benchmark_latency.cpp, `print_detailed_stats`, and of the ends of
-- tests/stress_test_integration.cpp and tests/stress_test_jitter.cpp.
pub mod Shares
use fix_feed_simulator.Prelude.{
  ℕ, ◌-◌, ◌*◌, ◌/◌, List, [], ◌∷◌, Option, none, some, length, get_or, leb, if◌then◌else◌,
}

-- `std::sort`: of numbers, so that how it orders equal ones is not seen.
insert : ℕ → List ℕ → List ℕ
insert x [] = x ∷ []
insert x (y ∷ ys) = let rest = insert x ys in if leb x y then x ∷ y ∷ ys else y ∷ rest

unfoldable pub sort : List ℕ → List ℕ
unfolding insert
sort [] = []
sort (x ∷ xs) = insert x (sort xs)

-- `data[data.size() * q]`, cut to an integer, with q = num / den. The product is one of `double`s,
-- and exact to the integer as long as the data fit into memory.
unfoldable pub quantile : ℕ → ℕ → List ℕ → ℕ
quantile num den latencies = get_or (sort latencies) (length latencies * num / den) 0

pub record Stats : Type 0 where
  pub min_val : ℕ
  pub median : ℕ
  pub p99 : ℕ
  pub max_val : ℕ

-- Of latencies that are not none.
unfoldable pub order_statistics : List ℕ → Stats
unfolding quantile
order_statistics latencies =
    let sorted = sort latencies in
    record {
      min_val = get_or sorted 0 0;
      median = get_or sorted (length latencies / 2) 0;
      p99 = quantile 99 100 latencies;
      max_val = get_or sorted (length latencies - 1) 0;
    }

-- Nothing is printed of none.
unfoldable pub detailed_stats : List ℕ → Option Stats
detailed_stats [] = none
detailed_stats (x ∷ xs) = some (order_statistics (x ∷ xs))
