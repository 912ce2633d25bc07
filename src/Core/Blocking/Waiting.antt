-- ===== src/Core/Blocking/Waiting.antt =====
-- include/core/blocking_ring_buffer.h with a producer, a consumer and a thread that calls `stop`: who
-- sleeps on which condition variable, and who wakes whom. The test of the wait and the falling
-- asleep are one step under the mutex; the notification comes after the unlock, as its own step.
pub mod Wakeups
use fix_feed_simulator.Prelude.{ℕ, ◌≡◌, Bool, none, some}
use fix_feed_simulator.Core.Blocking.{Ring, init, stop, push, pop}

-- A thread outside its call; asleep; about to take the mutex and
-- test, at its call or woken; done with the ring, and about to notify the other side.
pub data Phase : Type 0 where
  running asleep woken notifying : Phase

-- `stop`: not called; flag set; first `notify_all` done; both done.
pub data Stopper : Type 0 where
  idle flagged half done : Stopper

pub record System {ℓ} (A : Type ℓ) : Type ℓ where
  pub ring : Ring A
  pub item : A  -- the argument of the producer's call, from the call to its end
  pub producer : Phase
  pub consumer : Phase
  pub stopper : Stopper

-- A notification: it goes by a thread that is not asleep.
abbrev pub wake : Phase → Phase
wake asleep = woken
wake running = running
wake woken = woken
wake notifying = notifying

module _ {ℓ} {A : Type ℓ} (cap : ℕ) where
  pub data Step (s : System A) : System A → Type ℓ where
    push_calls :
        (item : A) → s.producer ≡ running → Step s (record s { item = item; producer = woken })
    push_goes :
        (answer : Bool) (r : Ring A)
        → s.producer ≡ woken
        → push cap s.ring s.item ≡ some (answer, r)
        → Step s (record s { ring = r; producer = notifying })
    push_waits :
        s.producer ≡ woken → push cap s.ring s.item ≡ none → Step s (record s { producer = asleep })
    push_notifies :
        s.producer ≡ notifying
        → Step s (record s { producer = running; consumer = wake s.consumer })
    pop_calls : s.consumer ≡ running → Step s (record s { consumer = woken })
    pop_goes :
        (old value : A) (answer : Bool) (r : Ring A)
        → s.consumer ≡ woken
        → pop cap s.ring old ≡ some (answer, value, r)
        → Step s (record s { ring = r; consumer = notifying })
    pop_waits :
        (old : A)
        → s.consumer ≡ woken
        → pop cap s.ring old ≡ none
        → Step s (record s { consumer = asleep })
    pop_notifies :
        s.consumer ≡ notifying
        → Step s (record s { consumer = running; producer = wake s.producer })
    -- A condition variable may wake a thread for no reason.
    push_spurious : Step s (record s { producer = wake s.producer })
    pop_spurious : Step s (record s { consumer = wake s.consumer })
    stop_flags : s.stopper ≡ idle → Step s (record s { ring = stop s.ring; stopper = flagged })
    stop_notifies_full :
        s.stopper ≡ flagged → Step s (record s { producer = wake s.producer; stopper = half })
    stop_notifies_empty :
        s.stopper ≡ half → Step s (record s { consumer = wake s.consumer; stopper = done })

  abbrev pub start : Ring A → A → System A
  start r item = record {
    ring = r;
    item = item;
    producer = running;
    consumer = running;
    stopper = idle;
  }

  -- From a ring, before either thread has called.
  pub data Reach (r : Ring A) (item : A) : System A → Type ℓ where
    here : Reach r item (start r item)
    later : {s t : System A} → Reach r item s → Step s t → Reach r item t
