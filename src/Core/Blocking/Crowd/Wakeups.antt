-- ===== src/Core/Blocking/Crowd/Wakeups.antt =====
-- No wakeup is lost in include/core/blocking_ring_buffer.h, however many threads there are: each
-- `notify_one` wakes only one, but there is one for every slot and every item.
use fix_feed_simulator.Prelude.{ℕ, ◌+◌, ◌≡◌, ◌<◌, ◌≤◌, arith, ◌⊎◌, inr, false}
use fix_feed_simulator.Prelude.Words.{size_mod}
use fix_feed_simulator.Core.Blocking.{Ring, stop, push, pop}
use fix_feed_simulator.Core.Blocking.Waiting.{idle, half, done}
use fix_feed_simulator.Core.Blocking.Crowd.{
  Standing, Crowd, Step, push_calls, push_goes, push_waits, push_notifies, pop_calls, pop_goes,
  pop_waits, pop_notifies, push_spurious, pop_spurious, stop_flags, stop_notifies_full,
  stop_notifies_empty, Reach, here, later,
}

-- Before the flag is set, the sleepers of a side leave no more slots, or items, than threads are on
-- their way to them.
pub record Claims (cap count : ℕ) (producers consumers : Standing) : Type 0 where
  pub fits : count ≤ cap
  pub slots : 0 < producers.asleep → cap ≤ count + producers.woken + consumers.notifying
  pub items : 0 < consumers.asleep → count ≤ consumers.woken + producers.notifying

pub record Inv {ℓ} {A : Type ℓ} (cap : ℕ) (s : Crowd A) : Type 0 where
  pub flag_down : s.stopper ≡ idle → s.ring.stopped ≡ false
  pub flag_up : s.ring.stopped ≡ false → s.stopper ≡ idle
  pub claims : s.ring.stopped ≡ false → Claims cap s.ring.count s.producers s.consumers
  pub full_woken : (s.stopper ≡ half) ⊎ (s.stopper ≡ done) → s.producers.asleep ≡ 0
  pub empty_woken : s.stopper ≡ done → s.consumers.asleep ≡ 0

module _ {ℓ} {A : Type ℓ} (cap : ℕ) (small : cap < size_mod) where
  Step-Inv : {s t : Crowd A} → Step cap s t → Inv cap s → Inv cap t
  unfolding push pop stop
  Step-Inv {s} (push_calls n at) inv = ground arith
  Step-Inv {s} (push_goes item answer r n at e) inv = ground arith
  Step-Inv {s} (push_waits item n at e) inv = ground arith
  Step-Inv {s} (push_notifies n at) inv = ground arith
  Step-Inv {s} (pop_calls n at) inv = ground arith
  Step-Inv {s} (pop_goes old value answer r n at e) inv = ground arith
  Step-Inv {s} (pop_waits old n at e) inv = ground arith
  Step-Inv {s} (pop_notifies n at) inv = ground arith
  Step-Inv {s} push_spurious inv = ground arith
  Step-Inv {s} pop_spurious inv = ground arith
  Step-Inv {s} (stop_flags at) inv = ground arith
  Step-Inv {s} (stop_notifies_full at) inv = ground arith
  Step-Inv {s} (stop_notifies_empty at) inv = ground arith

  pub Reach-Inv :
      (r : Ring A) (n m : ℕ) {s : Crowd A}
      → r.stopped ≡ false
      → r.count ≤ cap
      → Reach cap r n m s
      → Inv cap s
  Reach-Inv r n m going fits here = ground arith
  Reach-Inv r n m going fits (later reach st) = Step-Inv st (Reach-Inv r n m going fits reach)

  -- However many producers and consumers there are, from a ring that is not stopped and not
  -- overfull on, with a capacity below 2 ^ 64: until `stop` sets the flag, there are, while a producer
  -- sleeps, no more free slots than producers on their way to the test and consumers about to notify;
  -- and while a consumer sleeps, no more items than consumers on their way and producers about to
  -- notify. No slot and no item is left to a sleeper alone.
  pub no_sleeper_forgotten :
      (r : Ring A) (n m : ℕ) {s : Crowd A}
      → r.stopped ≡ false
      → r.count ≤ cap
      → Reach cap r n m s
      → s.stopper ≡ idle
      → (0 < s.producers.asleep → cap ≤ s.ring.count + s.producers.woken + s.consumers.notifying)
        × (0 < s.consumers.asleep → s.ring.count ≤ s.consumers.woken + s.producers.notifying)
  no_sleeper_forgotten r n m going fits reach before =
      let inv = Reach-Inv r n m going fits reach in
      let claims = inv.claims (inv.flag_down before) in (claims.slots, claims.items)

  -- However many threads there are, from a ring with slots, not stopped and not overfull on, with a
  -- capacity below 2 ^ 64: until `stop` sets the flag, there is never a producer and a consumer
  -- asleep while nobody is on the way to the test or about to notify; and once `stop` has returned
  -- nobody is asleep.
  pub crowd_awake :
      (r : Ring A) (n m : ℕ) {s : Crowd A}
      → 0 < cap
      → r.stopped ≡ false
      → r.count ≤ cap
      → Reach cap r n m s
      → (s.stopper ≡ idle
          → 0 < s.producers.asleep
          → 0 < s.consumers.asleep
          → 0
            < s.producers.woken + s.producers.notifying + s.consumers.woken + s.consumers.notifying)
        × (s.stopper ≡ done → (s.producers.asleep ≡ 0) × (s.consumers.asleep ≡ 0))
  crowd_awake r n m {s} pos going fits reach =
      let inv = Reach-Inv r n m going fits reach in
      (
        λ before at_push at_pop.
            let claims = inv.claims (inv.flag_down before) in
            omega (arith, claims.slots at_push, claims.items at_pop),
        λ after. (inv.full_woken (inr after), inv.empty_woken after),
      )
