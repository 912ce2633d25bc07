-- ===== src/Benchmarks/Transfer.antt =====
-- tests/benchmark_throughput.cpp, `run_blocking`: a producer that pushes so many items and a consumer
-- that pops as many, over include/core/blocking_ring_buffer.h, once both have seen `start`. The loops
-- of tests/stress_test_jitter.cpp are the same. The steps of the calls are those of
-- Core.Blocking.Waiting.
pub mod Invariant
pub mod Ends
use fix_feed_simulator.Prelude.{ℕ, suc, ◌+◌, ◌≡◌, List, [], ◌∷◌, ◌++◌, Bool, none, some, length}
use fix_feed_simulator.Core.Blocking.{Ring, init, push, pop}
use fix_feed_simulator.Core.Blocking.Waiting as Waiting
use fix_feed_simulator.Core.Blocking.Waiting.{running, asleep, woken, notifying, wake}

-- `to_send` are the items that the producer's loop has still to push, `to_take` how often the
-- consumer's has still to pop; `received` are those popped.
pub record Transfer {ℓ} (A : Type ℓ) : Type ℓ where
  pub calls : Waiting.System A
  pub to_send : List A
  pub to_take : ℕ
  pub received : List A

module _ {ℓ} {A : Type ℓ} (cap : ℕ) where
  pub data Step (s : Transfer A) : Transfer A → Type ℓ where
    push_calls :
        (item : A) (rest : List A)
        → s.to_send ≡ item ∷ rest
        → s.calls.producer ≡ running
        → Step s (record s {
          calls = record (s.calls) { item = item; producer = woken };
          to_send = rest;
        })
    push_goes :
        (answer : Bool) (r : Ring A)
        → s.calls.producer ≡ woken
        → push cap s.calls.ring s.calls.item ≡ some (answer, r)
        → Step s (record s { calls = record (s.calls) { ring = r; producer = notifying } })
    push_waits :
        s.calls.producer ≡ woken
        → push cap s.calls.ring s.calls.item ≡ none
        → Step s (record s { calls = record (s.calls) { producer = asleep } })
    push_notifies :
        s.calls.producer ≡ notifying
        → Step s (record s {
          calls = record (s.calls) { producer = running; consumer = wake s.calls.consumer };
        })
    pop_calls :
        (n : ℕ)
        → s.to_take ≡ suc n
        → s.calls.consumer ≡ running
        → Step s (record s { calls = record (s.calls) { consumer = woken }; to_take = n })
    pop_goes :
        (old value : A) (answer : Bool) (r : Ring A)
        → s.calls.consumer ≡ woken
        → pop cap s.calls.ring old ≡ some (answer, value, r)
        → Step s (record s {
          calls = record (s.calls) { ring = r; consumer = notifying };
          received = s.received ++ value ∷ [];
        })
    pop_waits :
        (old : A)
        → s.calls.consumer ≡ woken
        → pop cap s.calls.ring old ≡ none
        → Step s (record s { calls = record (s.calls) { consumer = asleep } })
    pop_notifies :
        s.calls.consumer ≡ notifying
        → Step s (record s {
          calls = record (s.calls) { consumer = running; producer = wake s.calls.producer };
        })

  -- A condition variable may wake a thread for no reason.
  pub data Spurious (s : Transfer A) : Transfer A → Type ℓ where
    push_spurious :
        Spurious s (record s { calls = record (s.calls) { producer = wake s.calls.producer } })
    pop_spurious :
        Spurious s (record s { calls = record (s.calls) { consumer = wake s.calls.consumer } })

  -- `any` is what an item is before the first call.
  abbrev pub start : List A → A → List A → Transfer A
  start storage any items = record {
    calls = Waiting.start cap (init storage) any;
    to_send = items;
    to_take = length items;
    received = [];
  }

  -- The first number counts the steps, the second the wakeups for no reason.
  pub data Reach (storage : List A) (any : A) (items : List A) : ℕ → ℕ → Transfer A → Type ℓ where
    here : Reach storage any items 0 0 (start storage any items)
    later :
        {n k : ℕ} {s t : Transfer A}
        → Reach storage any items n k s
        → Step s t
        → Reach storage any items (suc n) k t
    woken_up :
        {n k : ℕ} {s t : Transfer A}
        → Reach storage any items n k s
        → Spurious s t
        → Reach storage any items n (suc k) t
