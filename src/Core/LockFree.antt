-- ===== src/Core/LockFree.antt =====
-- include/core/nonblocking_ring_buffer.h: `LockFreeRingBuffer<T, Capacity>`, each operation as
-- one step of a single thread. The two counters are `size_t`: they only grow, and wrap at 2 ^ 64.
pub mod Refine
pub mod Spsc
pub mod View
mod Tests
use fix_feed_simulator.Prelude.{
  ℕ, ◌-◌, ◌^◌, ◌<◌, ◌≡◌, List, Bool, true, false, get_or, set, ltb, ◌==◌, if◌then◌else◌, bit_and,
}
use fix_feed_simulator.Prelude.Words.{add_size, sub_size}

pub record Ring {ℓ} (A : Type ℓ) : Type ℓ where
  pub write_index : ℕ
  pub read_index : ℕ
  pub buffer : List A

-- `requires(std::has_single_bit(Capacity))`, for a `size_t`.
abbrev pub IsCapacity : ℕ → Type 0
IsCapacity cap = (k : ℕ) × (k < 64) × (cap ≡ 2 ^ k)

-- The constructor. The array comes as the memory finds it.
abbrev pub init {ℓ} : {A : Type ℓ} → List A → Ring A
init storage = record { write_index = 0; read_index = 0; buffer = storage }

-- `index & (Capacity - 1)`
abbrev pub slot : ℕ → ℕ → ℕ
slot cap index = bit_and index (cap - 1)

module _ {ℓ} {A : Type ℓ} (cap : ℕ) where
  unfoldable pub push : Ring A → A → Bool × Ring A
  push r item =
      let current_write = r.write_index in
      let next_write = add_size current_write 1 in
      let current_read = r.read_index in
      if ltb cap (sub_size next_write current_read) then (false, r) else (
        true,
        record r { write_index = next_write; buffer = set r.buffer (slot cap current_write) item },
      )

  -- `value` is what the caller's variable held before.
  unfoldable pub pop : Ring A → A → Bool × A × Ring A
  pop r value =
      let current_read = r.read_index in
      let current_write = r.write_index in
      if current_read == current_write then (false, value, r) else (
        true,
        get_or r.buffer (slot cap current_read) value,
        record r { read_index = add_size current_read 1 },
      )

  abbrev pub capacity : Ring A → ℕ
  capacity r = cap

-- The two loads, each of the ring as it is for the caller at that load.
unfoldable pub size {ℓ} : {A : Type ℓ} → Ring A → Ring A → ℕ
size first second =
    let head = first.read_index in let tail = second.write_index in sub_size tail head
