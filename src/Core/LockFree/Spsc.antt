-- ===== src/Core/LockFree/Spsc.antt =====
-- include/core/nonblocking_ring_buffer.h with one producer and one consumer at work at once: `push`
-- and `pop` cut at each access to shared memory, interleaved in any order.
-- An acquire load of the other side's counter may return any value that the counter has had, as
-- long as no side goes back behind what it has seen. What a release store made visible stays so.
pub mod Invariant
pub mod Steps
pub mod Safety
pub mod Linear
pub mod Size
pub mod Client
pub mod ClientRefines
use fix_feed_simulator.Prelude.{
  ℕ, ◌%◌, ◌≤◌, ◌≡◌, List, [], ◌∷◌, ◌++◌, true, false, length, get_or, set, ltb, ◌==◌,
}
use fix_feed_simulator.Prelude.Words.{size_mod, add_size, sub_size}
use fix_feed_simulator.Core.LockFree.{Ring, slot, init}

-- Where a thread stands in `push`, with the locals that are live there.
pub data Producer {ℓ} (A : Type ℓ) : Type ℓ where
  ready : Producer A
  own_loaded : (item : A) (current_write : ℕ) → Producer A
  both_loaded : (item : A) (current_write current_read : ℕ) → Producer A
  written : (item : A) (current_write : ℕ) → Producer A

-- The same for `pop`.
pub data Consumer {ℓ} (A : Type ℓ) : Type ℓ where
  ready : Consumer A
  own_loaded : (current_read : ℕ) → Consumer A
  both_loaded : (current_read current_write : ℕ) → Consumer A
  copied : (value : A) (current_read : ℕ) → Consumer A

-- `sent` are the items whose `push` has stored its counter, `received` those whose `pop` has;
-- `seen_read` and `seen_write` count what each side has last seen of the other's progress.
pub record System {ℓ} (A : Type ℓ) : Type ℓ where
  pub ring : Ring A
  pub producer : Producer A
  pub consumer : Consumer A
  pub sent : List A
  pub received : List A
  pub seen_read : ℕ
  pub seen_write : ℕ

-- The guard of `push`, either way.
abbrev pub HasNoRoom : ℕ → ℕ → ℕ → Type 0
HasNoRoom cap current_write current_read =
    ltb cap (sub_size (add_size current_write 1) current_read) ≡ true

abbrev pub HasRoom : ℕ → ℕ → ℕ → Type 0
HasRoom cap current_write current_read =
    ltb cap (sub_size (add_size current_write 1) current_read) ≡ false

module _ {ℓ} {A : Type ℓ} (cap : ℕ) where
  pub data Step (s : System A) : System A → Type ℓ where
    push_load_own :
        (item : A)
        → s.producer ≡ Producer.ready
        → Step s (record s { producer = Producer.own_loaded item s.ring.write_index })
    push_load_other :
        (item : A) (w n : ℕ)
        → s.producer ≡ Producer.own_loaded item w
        → s.seen_read ≤ n
        → n ≤ length s.received
        → Step s (record s { producer = Producer.both_loaded item w (n % size_mod); seen_read = n })
    push_refuse :
        (item : A) (w r : ℕ)
        → s.producer ≡ Producer.both_loaded item w r
        → HasNoRoom cap w r
        → Step s (record s { producer = Producer.ready })
    push_write :
        (item : A) (w r : ℕ)
        → s.producer ≡ Producer.both_loaded item w r
        → HasRoom cap w r
        → Step s (record s {
          producer = Producer.written item w;
          ring = record (s.ring) { buffer = set s.ring.buffer (slot cap w) item };
        })
    push_publish :
        (item : A) (w : ℕ)
        → s.producer ≡ Producer.written item w
        → Step s (record s {
          producer = Producer.ready;
          ring = record (s.ring) { write_index = add_size w 1 };
          sent = s.sent ++ item ∷ [];
        })
    pop_load_own :
        s.consumer ≡ Consumer.ready
        → Step s (record s { consumer = Consumer.own_loaded s.ring.read_index })
    pop_load_other :
        (r n : ℕ)
        → s.consumer ≡ Consumer.own_loaded r
        → s.seen_write ≤ n
        → n ≤ length s.sent
        → Step s (record s { consumer = Consumer.both_loaded r (n % size_mod); seen_write = n })
    pop_refuse :
        (r w : ℕ)
        → s.consumer ≡ Consumer.both_loaded r w
        → (r == w) ≡ true
        → Step s (record s { consumer = Consumer.ready })
    pop_copy :
        (value : A) (r w : ℕ)
        → s.consumer ≡ Consumer.both_loaded r w
        → (r == w) ≡ false
        → Step s
            (record s { consumer = Consumer.copied (get_or s.ring.buffer (slot cap r) value) r })
    pop_publish :
        (value : A) (r : ℕ)
        → s.consumer ≡ Consumer.copied value r
        → Step s (record s {
          consumer = Consumer.ready;
          ring = record (s.ring) { read_index = add_size r 1 };
          received = s.received ++ value ∷ [];
        })

  abbrev pub start : List A → System A
  start storage = record {
    ring = init storage;
    producer = Producer.ready;
    consumer = Consumer.ready;
    sent = [];
    received = [];
    seen_read = 0;
    seen_write = 0;
  }

  pub data Reach (storage : List A) : System A → Type ℓ where
    here : Reach storage (start storage)
    later : {s t : System A} → Reach storage s → Step s t → Reach storage t
