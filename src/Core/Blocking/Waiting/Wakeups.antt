-- ===== src/Core/Blocking/Waiting/Wakeups.antt =====
-- No wakeup is lost between the two condition variables of
-- include/core/blocking_ring_buffer.h.
use fix_feed_simulator.Prelude.{ℕ, ◌≡◌, ◌<◌, ◌≤◌, ◌≢◌, arith, ◌⊎◌, Bool, true, false}
use fix_feed_simulator.Core.Blocking.{Ring, stop, push, pop}
use fix_feed_simulator.Core.Blocking.Waiting.{
  Phase, running, asleep, woken, notifying, Stopper, idle, flagged, half, done, System, Step, Reach,
  push_calls, push_goes, push_waits, push_notifies, pop_calls, pop_goes, pop_waits, pop_notifies,
  push_spurious, pop_spurious, stop_flags, stop_notifies_full, stop_notifies_empty, here, later,
}

-- A sleeping producer: `stop` is about to wake it, or the ring is full, or the consumer is about to
-- wake it. The Boolean is the `stopped_` flag.
abbrev pub SleepsFull : ℕ → ℕ → Bool → Phase → Stopper → Phase → Type 0
SleepsFull cap count flag c st asleep =
    (st ≡ flagged) ⊎ ((flag ≡ false) × ((cap ≤ count) ⊎ (c ≡ notifying)))
SleepsFull cap count flag c st running = Unit
SleepsFull cap count flag c st woken = Unit
SleepsFull cap count flag c st notifying = Unit

abbrev pub SleepsEmpty : ℕ → Bool → Phase → Stopper → Phase → Type 0
SleepsEmpty count flag p st asleep =
    (st ≡ flagged) ⊎ (st ≡ half) ⊎ ((flag ≡ false) × ((count ≡ 0) ⊎ (p ≡ notifying)))
SleepsEmpty count flag p st running = Unit
SleepsEmpty count flag p st woken = Unit
SleepsEmpty count flag p st notifying = Unit

abbrev pub FlagOk : Bool → Stopper → Type 0
FlagOk flag idle = Unit
FlagOk flag flagged = flag ≡ true
FlagOk flag half = flag ≡ true
FlagOk flag done = flag ≡ true

pub record Inv {ℓ} {A : Type ℓ} (cap : ℕ) (s : System A) : Type 0 where
  pub full_ok : SleepsFull cap s.ring.count s.ring.stopped s.consumer s.stopper s.producer
  pub empty_ok : SleepsEmpty s.ring.count s.ring.stopped s.producer s.stopper s.consumer
  pub flag_ok : FlagOk s.ring.stopped s.stopper

module _ {ℓ} {A : Type ℓ} (cap : ℕ) where
  Step-Inv : {s t : System A} → Step cap s t → Inv cap s → Inv cap t
  unfolding push pop stop
  Step-Inv {s} (push_calls item e) inv = ground arith
  Step-Inv {s} (push_goes answer r at e) inv = ground arith
  Step-Inv {s} (push_waits at e) inv = ground arith
  Step-Inv {s} (push_notifies e) inv = ground arith
  Step-Inv {s} (pop_calls e) inv = ground arith
  Step-Inv {s} (pop_goes old value answer r at e) inv = ground arith
  Step-Inv {s} (pop_waits old at e) inv = ground arith
  Step-Inv {s} (pop_notifies e) inv = ground arith
  Step-Inv {s} push_spurious inv = ground arith
  Step-Inv {s} pop_spurious inv = ground arith
  Step-Inv {s} (stop_flags e) inv = ground arith
  Step-Inv {s} (stop_notifies_full e) inv = ground arith
  Step-Inv {s} (stop_notifies_empty e) inv = ground arith

  pub Reach-Inv :
      (r : Ring A) (item : A) {s : System A} → r.stopped ≡ false → Reach cap r item s → Inv cap s
  Reach-Inv r item going here = record { full_ok = tt; empty_ok = tt; flag_ok = tt }
  Reach-Inv r item going (later reach st) = Step-Inv st (Reach-Inv r item going reach)

  -- No wakeup is lost, from a ring that is not stopped on: a producer that sleeps beside a free
  -- slot, or a consumer that sleeps beside an item, is about to be notified, by the other side or
  -- by `stop`.
  pub no_lost_wakeup :
      (r : Ring A) (item : A) {s : System A}
      → r.stopped ≡ false
      → Reach cap r item s
      → (s.producer ≡ asleep
          → s.ring.count < cap
          → (s.stopper ≡ flagged) ⊎ (s.consumer ≡ notifying))
        × (s.consumer ≡ asleep
            → 0 < s.ring.count
            → (s.stopper ≡ flagged) ⊎ (s.stopper ≡ half) ⊎ (s.producer ≡ notifying))
  no_lost_wakeup r item {s} going reach =
      let inv = Reach-Inv r item going reach in
      (λ at room. ground arith, λ at some_held. ground arith)

  -- From a ring that has slots and is not stopped on, producer and consumer are never asleep
  -- together, except while `stop` is about to wake them; and once `stop` has returned neither is
  -- asleep.
  pub no_deadlock :
      (r : Ring A) (item : A) {s : System A}
      → 0 < cap
      → r.stopped ≡ false
      → Reach cap r item s
      → (s.producer ≡ asleep → s.consumer ≡ asleep → (s.stopper ≡ flagged) ⊎ (s.stopper ≡ half))
        × (s.stopper ≡ done → (s.producer ≢ asleep) × (s.consumer ≢ asleep))
  no_deadlock r item {s} pos going reach =
      let inv = Reach-Inv r item going reach in
      (λ at_push at_pop. ground arith, λ stopped. (λ at. ground arith, λ at. ground arith))
