-- ===== src/Core/LockFree/Spsc/Size.antt =====
-- `size()` of include/core/nonblocking_ring_buffer.h by any thread, while the producer and the consumer
-- are at work. It loads the read counter first, then the write counter; between the two loads both
-- sides may go on.
use fix_feed_simulator.Prelude.{
  ℕ, ◌+◌, ◌-◌, ◌%◌, ◌^◌, ◌≤◌, ◌<◌, ◌≡◌, arith, List, [], ◌∷◌, length, length-append,
}
use fix_feed_simulator.Prelude.Words.{size_mod}
use fix_feed_simulator.Core.Runs.{Run, none_yet, and_then}
use fix_feed_simulator.Core.LockFree.{Ring, IsCapacity, size}
use fix_feed_simulator.Core.LockFree.Refine.{capacity_bounds}
use fix_feed_simulator.Core.LockFree.Spsc.{
  System, Step, push_load_own, push_load_other, push_refuse, push_write, push_publish, pop_load_own,
  pop_load_other, pop_refuse, pop_copy, pop_publish, Reach, later,
}
use fix_feed_simulator.Core.LockFree.Spsc.Invariant.{sent_count}
use fix_feed_simulator.Core.LockFree.Spsc.Steps.{Reach-Inv}

module _ {ℓ} {A : Type ℓ} (cap : ℕ) where
  received_grows : {s t : System A} → Step cap s t → length s.received ≤ length t.received
  received_grows (push_load_own item at) = omega arith
  received_grows (push_load_other item w n at past present) = omega arith
  received_grows (push_refuse item w r at full) = omega arith
  received_grows (push_write item w r at room) = omega arith
  received_grows (push_publish item w at) = omega arith
  received_grows (pop_load_own at) = omega arith
  received_grows (pop_load_other r n at past present) = omega arith
  received_grows (pop_refuse r w at none_left) = omega arith
  received_grows (pop_copy value r w at more) = omega arith
  received_grows {s} (pop_publish value r at) = omega (arith, length-append s.received (value ∷ []))

  run_grows :
      {s t : System A} {k : ℕ} → Run (Step cap) s k t → length s.received ≤ length t.received
  run_grows none_yet = omega arith
  run_grows (and_then run st) = omega (arith, run_grows run, received_grows st)

  run_Reach :
      {storage : List A} {s t : System A} {k : ℕ}
      → Reach cap storage s
      → Run (Step cap) s k t
      → Reach cap storage t
  run_Reach reach none_yet = reach
  run_Reach reach (and_then run st) = later (run_Reach reach run) st

module _ {ℓ} {A : Type ℓ} (cap : ℕ) (is_cap : IsCapacity cap) (storage : List A)
    (whole : length storage ≡ cap) where
  -- A call of `size()` loads the read counter as it was in a state that one producer and one
  -- consumer can reach, with a capacity that is a power of two and an array of that length; then,
  -- any steps of theirs later, a write counter that there has been until then, and not before the
  -- one that the consumer had seen at the first load. The subtraction does not run below zero: the
  -- answer is the number of items stored at the second load less those taken at the first. It is at
  -- most `Capacity` and the number of items taken in between, if these are fewer than 2 ^ 63.
  pub size_concurrent :
      {s t : System A} {k : ℕ}
      → Reach cap storage s
      → Run (Step cap) s k t
      → (second : Ring A) (n : ℕ) → second.write_index ≡ n % size_mod
      → s.seen_write ≤ n
      → n ≤ length t.sent
      → length t.received < length s.received + 2 ^ 63
      → (size s.ring second + length s.received ≡ n)
        × (size s.ring second ≤ cap + (length t.received - length s.received))
  unfolding size
  size_concurrent {s} {t} reach run second n writes past present few =
      let inv = Reach-Inv cap is_cap storage whole reach in
      let inv' = Reach-Inv cap is_cap storage whole (run_Reach cap reach run) in
      let known = inv.seen.known in
      let grown = run_grows cap run in
      let counts = sent_count cap t inv' in
      let fits = inv'.ring_ok.0.fits in
      let head = inv.ring_ok.0.reads in
      let bounds = capacity_bounds cap is_cap in
      let answer : size s.ring second ≡ n - length s.received = omega arith in
      (omega (arith, answer), omega (arith, answer))
