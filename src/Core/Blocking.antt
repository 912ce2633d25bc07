-- ===== src/Core/Blocking.antt =====
-- include/core/blocking_ring_buffer.h: `BlockingRingBuffer<T, Capacity>`. Each operation holds the
-- mutex from its wait's return to its end, so it is one step; `none` is a call that still waits on
-- its condition variable. Indices and count are `size_t`.
pub mod Refine
pub mod Stopped
pub mod Waiting
pub mod Crowd
mod Tests
use fix_feed_simulator.Prelude.{
  ℕ, ◌%◌, List, Bool, true, false, ◌||◌, Option, none, some, get_or, set, ltb, if◌then◌else◌,
}
use fix_feed_simulator.Prelude.Words.{add_size, sub_size}

pub record Ring {ℓ} (A : Type ℓ) : Type ℓ where
  pub buffer : List A
  pub write_index : ℕ
  pub read_index : ℕ
  pub count : ℕ
  pub stopped : Bool

abbrev pub init {ℓ} : {A : Type ℓ} → List A → Ring A
init storage = record {
  buffer = storage;
  write_index = 0;
  read_index = 0;
  count = 0;
  stopped = false;
}

module _ {ℓ} {A : Type ℓ} where
  -- The threads that wait are woken, and look at the flag again.
  unfoldable pub stop : Ring A → Ring A
  stop r = record r { stopped = true }

  -- The condition on which `push` stops waiting, and that of `pop`.
  unfoldable pub may_push : ℕ → Ring A → Bool
  may_push cap r = ltb r.count cap || r.stopped

  unfoldable pub may_pop : Ring A → Bool
  may_pop r = ltb 0 r.count || r.stopped

  unfoldable pub push : ℕ → Ring A → A → Option (Bool × Ring A)
  unfolding may_push
  push cap r item =
      if may_push cap r
      then some (
        true,
        record r {
          buffer = set r.buffer r.write_index item;
          write_index = add_size r.write_index 1 % cap;
          count = add_size r.count 1;
        },
      )
      else none

  -- `item` is what the caller's variable held before.
  unfoldable pub pop : ℕ → Ring A → A → Option (Bool × A × Ring A)
  unfolding may_pop
  pop cap r item =
      if may_pop r
      then some (
        true,
        get_or r.buffer r.read_index item,
        record r { read_index = add_size r.read_index 1 % cap; count = sub_size r.count 1 },
      )
      else none

  unfoldable pub size : Ring A → ℕ
  size r = r.count

  abbrev pub capacity : ℕ → Ring A → ℕ
  capacity cap r = cap

  -- `(float)count_ / (float)Capacity`, with the conversion and the division of `float` left open.
  unfoldable pub load_factor {κ} : {F : Type κ} → (ℕ → F) → (F → F → F) → ℕ → Ring A → F
  load_factor to_float div cap r = div (to_float r.count) (to_float cap)
