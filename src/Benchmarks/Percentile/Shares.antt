-- ===== src/Benchmarks/Percentile/Shares.antt =====
-- How much of the data lies below the order statistics of tests/benchmark_latency.cpp.
use fix_feed_simulator.Prelude.{
  ℕ, zero, suc, ◌-◌, ◌*◌, ◌/◌, ◌≤◌, ◌<◌, ◌≡◌, refl, arith, some, List, [], ◌∷◌, Bool, length,
  get_or, All, leb, ltb, leb→le, leb→lt, Bool-cases, inl, inr, if◌then◌else◌,
}
use fix_feed_simulator.Benchmarks.Percentile.{
  insert, sort, quantile, Stats, order_statistics, detailed_stats,
}

abbrev pub count : (ℕ → Bool) → List ℕ → ℕ
count p [] = 0
count p (x ∷ xs) = let rest = count p xs in if p x then suc rest else rest

-- How many of the data are at most `v`, and how many are less.
abbrev pub at_most : ℕ → List ℕ → ℕ
at_most v = count (λ x. leb x v)

abbrev pub below : ℕ → List ℕ → ℕ
below v = count (λ x. ltb x v)

abbrev IsSorted : List ℕ → Type 0
IsSorted [] = Unit
IsSorted (x ∷ xs) = All (λ y. x ≤ y) xs × IsSorted xs

count-insert : (p : ℕ → Bool) (x : ℕ) (xs : List ℕ) → count p (insert x xs) ≡ count p (x ∷ xs)
unfolding insert
count-insert p x [] = refl
count-insert p x (y ∷ ys) = ground (arith, count-insert p x ys)

count-sort : (p : ℕ → Bool) (xs : List ℕ) → count p (sort xs) ≡ count p xs
unfolding sort
count-sort p [] = refl
count-sort p (x ∷ xs) = ground (arith, count-insert p x (sort xs), count-sort p xs)

length-insert : (x : ℕ) (xs : List ℕ) → length (insert x xs) ≡ suc (length xs)
unfolding insert
length-insert x [] = refl
length-insert x (y ∷ ys) = ground (arith, length-insert x ys)

length-sort : (xs : List ℕ) → length (sort xs) ≡ length xs
unfolding sort
length-sort [] = refl
length-sort (x ∷ xs) = omega (arith, length-insert x (sort xs), length-sort xs)

insert-All : (P : ℕ → Type 0) (x : ℕ) (xs : List ℕ) → P x → All P xs → All P (insert x xs)
unfolding insert
insert-All P x [] px all = (px, tt)
insert-All P x (y ∷ ys) px (py, all) = ground (arith, insert-All P x ys px all)

weaker : (x y : ℕ) (ys : List ℕ) → x ≤ y → All (λ z. y ≤ z) ys → All (λ z. x ≤ z) ys
weaker x y [] h all = tt
weaker x y (z ∷ zs) h (hz, all) = (omega arith, weaker x y zs h all)

insert-IsSorted : (x : ℕ) (xs : List ℕ) → IsSorted xs → IsSorted (insert x xs)
unfolding insert
insert-IsSorted x [] h = (tt, tt)
insert-IsSorted x (y ∷ ys) (least, sorted) = elim (Bool-cases (leb x y)) [
  | inl small ↦ let h = leb→le x y small in rw small (((h, weaker x y ys h least), (least, sorted)))
  | inr large ↦
      let h = leb→lt x y large in
      let others = insert-All (λ z. y ≤ z) x ys (omega arith) least in
      rw large (others, insert-IsSorted x ys sorted)
]

sort-IsSorted : (xs : List ℕ) → IsSorted (sort xs)
unfolding sort
sort-IsSorted [] = tt
sort-IsSorted (x ∷ xs) = insert-IsSorted x (sort xs) (sort-IsSorted xs)

get_or-All : (P : ℕ → Type 0) (xs : List ℕ) (i : ℕ) → i < length xs → All P xs → P (get_or xs i 0)
get_or-All P [] i h all = absurd (omega arith)
get_or-All P (x ∷ xs) zero h (px, all) = px
get_or-All P (x ∷ xs) (suc i) h (px, all) = get_or-All P xs i (omega arith) all

-- What stands at `i` in sorted data has more than `i` of them at most as large, and at most `i` less.
none_below : (x : ℕ) (xs : List ℕ) → All (λ y. x ≤ y) xs → below x xs ≡ 0
none_below x [] all = refl
none_below x (y ∷ ys) (h, all) = ground (arith, none_below x ys all)

at_index :
    (xs : List ℕ) (i : ℕ)
    → i < length xs
    → IsSorted xs
    → (i < at_most (get_or xs i 0) xs) × (below (get_or xs i 0) xs ≤ i)
at_index [] i h sorted = absurd (omega arith)
at_index (x ∷ xs) zero h (least, sorted) = ground (arith, none_below x xs least)
at_index (x ∷ xs) (suc i) h (least, sorted) =
    let (more, fewer) = at_index xs i (omega arith) sorted in
    let first : x ≤ get_or xs i 0 = get_or-All (λ y. x ≤ y) xs i (omega arith) least in
    (ground (arith, more, first), ground (arith, fewer, first))

monotone :
    (xs : List ℕ) (i j : ℕ) → i ≤ j → j < length xs → IsSorted xs → get_or xs i 0 ≤ get_or xs j 0
monotone [] i j h hj sorted = absurd (omega arith)
monotone (x ∷ xs) zero zero h hj sorted = omega arith
monotone (x ∷ xs) (suc i) zero h hj sorted = absurd (omega arith)
monotone (x ∷ xs) zero (suc j) h hj (least, sorted) =
    get_or-All (λ y. x ≤ y) xs j (omega arith) least
monotone (x ∷ xs) (suc i) (suc j) h hj (least, sorted) =
    monotone xs i j (omega arith) (omega arith) sorted

count-length : (p : ℕ → Bool) (xs : List ℕ) → count p xs ≤ length xs
count-length p [] = omega arith
count-length p (x ∷ xs) = ground (arith, count-length p xs)

-- The same of data that are sorted first.
at_sorted_index :
    (xs : List ℕ) (i : ℕ)
    → i < length xs
    → let v = get_or (sort xs) i 0 in (i < at_most v xs) × (below v xs ≤ i)
at_sorted_index xs i h =
    let v = get_or (sort xs) i 0 in
    let (more, fewer) = at_index (sort xs) i (omega (arith, length-sort xs)) (sort-IsSorted xs) in
    (
      omega (arith, more, count-sort (λ x. leb x v) xs),
      omega (arith, fewer, count-sort (λ x. ltb x v) xs),
    )

-- Of latencies that are not none, order statistics are printed, and they are in order; more than half of the
-- latencies are at most the median and at most half are less, more than 99 of 100 are at most the
-- 99th percentile and at most 99 of 100 are less, none is less than the least and all are at most
-- the greatest.
pub detailed_stats_lem :
    (x : ℕ) (xs : List ℕ)
    → let all = x ∷ xs in
      let n = length all in
      (s : Stats) × (detailed_stats all ≡ some s)
      × (s.min_val ≤ s.median)
      × (s.median ≤ s.p99)
      × (s.p99 ≤ s.max_val)
      × (n < 2 * at_most s.median all)
      × (2 * below s.median all ≤ n)
      × (99 * n < 100 * at_most s.p99 all)
      × (100 * below s.p99 all ≤ 99 * n)
      × (below s.min_val all ≡ 0)
      × (at_most s.max_val all ≡ n)
unfolding detailed_stats order_statistics quantile
detailed_stats_lem x xs =
    let all = x ∷ xs in
    let n = length all in
    let pos : 0 < n = omega arith in
    let size = length-sort all in
    let in_order = λ (i j : ℕ) (h : i ≤ j) (hj : j < n).
      monotone (sort all) i j h (omega (arith, size)) (sort-IsSorted all) in
    let least = at_sorted_index all 0 pos in
    let middle = at_sorted_index all (n / 2) (omega arith) in
    let late = at_sorted_index all (n * 99 / 100) (omega arith) in
    let greatest = at_sorted_index all (n - 1) (omega arith) in
    (
      order_statistics all,
      refl,
      in_order 0 (n / 2) (omega arith) (omega arith),
      in_order (n / 2) (n * 99 / 100) (omega arith) (omega arith),
      in_order (n * 99 / 100) (n - 1) (omega arith) (omega arith),
      omega (arith, middle.0),
      omega (arith, middle.1),
      omega (arith, late.0),
      omega (arith, late.1),
      omega (arith, least.1),
      omega (arith, greatest.0, count-length (λ x. leb x (get_or (sort all) (n - 1) 0)) all),
    )
