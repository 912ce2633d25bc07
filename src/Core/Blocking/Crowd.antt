-- ===== src/Core/Blocking/Crowd.antt =====
-- include/core/blocking_ring_buffer.h with any number of producers and consumers and a thread that
-- calls `stop`. The threads are counted by where they stand; each step is that of one thread, as in
-- Core.Blocking.Waiting. In include/market/market_data_system_rw.h the call of `stop` is a second
-- producer.
pub mod Wakeups
mod Tests
use fix_feed_simulator.Prelude.{ℕ, suc, ◌+◌, ◌-◌, ◌≡◌, Bool, none, some, ltb, if◌then◌else◌}
use fix_feed_simulator.Core.Blocking.{Ring, stop, push, pop}
use fix_feed_simulator.Core.Blocking.Waiting.{Stopper, idle, flagged, half, done}

-- How many threads of one side are outside their call, about to test under the mutex, asleep on the
-- condition variable, and about to notify the other side.
pub record Standing : Type 0 where
  pub outside : ℕ
  pub woken : ℕ
  pub asleep : ℕ
  pub notifying : ℕ

-- `notify_one` wakes one sleeper, if there is one; `notify_all` wakes them all.
abbrev pub notify_one : Standing → Standing
notify_one s = if ltb 0 s.asleep then record s { asleep = s.asleep - 1; woken = s.woken + 1 } else s

abbrev pub notify_all : Standing → Standing
notify_all s = record s { asleep = 0; woken = s.woken + s.asleep }

abbrev pub all_outside : ℕ → Standing
all_outside n = record { outside = n; woken = 0; asleep = 0; notifying = 0 }

pub record Crowd {ℓ} (A : Type ℓ) : Type ℓ where
  pub ring : Ring A
  pub producers : Standing
  pub consumers : Standing
  pub stopper : Stopper

module _ {ℓ} {A : Type ℓ} (cap : ℕ) where
  pub data Step (s : Crowd A) : Crowd A → Type ℓ where
    push_calls :
        (n : ℕ)
        → s.producers.outside ≡ suc n
        → Step s (record s {
          producers = record (s.producers) { outside = n; woken = s.producers.woken + 1 };
        })
    push_goes :
        (item : A) (answer : Bool) (r : Ring A) (n : ℕ)
        → s.producers.woken ≡ suc n
        → push cap s.ring item ≡ some (answer, r)
        → Step s (record s {
          ring = r;
          producers = record (s.producers) { woken = n; notifying = s.producers.notifying + 1 };
        })
    push_waits :
        (item : A) (n : ℕ)
        → s.producers.woken ≡ suc n
        → push cap s.ring item ≡ none
        → Step s (record s {
          producers = record (s.producers) { woken = n; asleep = s.producers.asleep + 1 };
        })
    push_notifies :
        (n : ℕ)
        → s.producers.notifying ≡ suc n
        → Step s (record s {
          producers = record (s.producers) { notifying = n; outside = s.producers.outside + 1 };
          consumers = notify_one s.consumers;
        })
    pop_calls :
        (n : ℕ)
        → s.consumers.outside ≡ suc n
        → Step s (record s {
          consumers = record (s.consumers) { outside = n; woken = s.consumers.woken + 1 };
        })
    pop_goes :
        (old value : A) (answer : Bool) (r : Ring A) (n : ℕ)
        → s.consumers.woken ≡ suc n
        → pop cap s.ring old ≡ some (answer, value, r)
        → Step s (record s {
          ring = r;
          consumers = record (s.consumers) { woken = n; notifying = s.consumers.notifying + 1 };
        })
    pop_waits :
        (old : A) (n : ℕ)
        → s.consumers.woken ≡ suc n
        → pop cap s.ring old ≡ none
        → Step s (record s {
          consumers = record (s.consumers) { woken = n; asleep = s.consumers.asleep + 1 };
        })
    pop_notifies :
        (n : ℕ)
        → s.consumers.notifying ≡ suc n
        → Step s (record s {
          consumers = record (s.consumers) { notifying = n; outside = s.consumers.outside + 1 };
          producers = notify_one s.producers;
        })
    -- A condition variable may wake a thread for no reason.
    push_spurious : Step s (record s { producers = notify_one s.producers })
    pop_spurious : Step s (record s { consumers = notify_one s.consumers })
    stop_flags : s.stopper ≡ idle → Step s (record s { ring = stop s.ring; stopper = flagged })
    stop_notifies_full :
        s.stopper ≡ flagged
        → Step s (record s { producers = notify_all s.producers; stopper = half })
    stop_notifies_empty :
        s.stopper ≡ half → Step s (record s { consumers = notify_all s.consumers; stopper = done })

  abbrev pub start : Ring A → ℕ → ℕ → Crowd A
  start r producers consumers = record {
    ring = r;
    producers = all_outside producers;
    consumers = all_outside consumers;
    stopper = idle;
  }

  -- From a ring, before any thread has called.
  pub data Reach (r : Ring A) (producers consumers : ℕ) : Crowd A → Type ℓ where
    here : Reach r producers consumers (start r producers consumers)
    later :
        {s t : Crowd A} → Reach r producers consumers s → Step s t → Reach r producers consumers t
