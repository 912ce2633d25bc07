-- ===== src/Core/Agree.antt =====
-- include/core/nonblocking_ring_buffer.h and include/core/blocking_ring_buffer.h side by side.
mod Tests
use fix_feed_simulator.Prelude.{
  ℕ, ◌≤◌, ◌<◌, ◌≡◌, refl, sym, ◌∙◌, ap, ap₂, arith, List, [], ◌∷◌, Bool, true, false, Option, none,
  some, length, Bool-cases, ltb, ltb→lt, ltb→le, inl, inr,
}
use fix_feed_simulator.Prelude.Words.{size_mod}
use fix_feed_simulator.Core.Queue.{Call, put, get, Reply, stored, taken, offer, poll}
use fix_feed_simulator.Core.Queue
use fix_feed_simulator.Core.LockFree.{IsCapacity}
use fix_feed_simulator.Core.LockFree
use fix_feed_simulator.Core.LockFree.Refine.{capacity_bounds}
use fix_feed_simulator.Core.LockFree.Refine
use fix_feed_simulator.Core.Blocking.{Ring, init, push, pop}
use fix_feed_simulator.Core.Blocking.Refine.{
  Represents, init-Represents, push-room, push-full, pop-empty, pop-first,
}

module _ {ℓ} {A : Type ℓ} (cap : ℕ) where
  -- What a call of `push` or `pop` does to a thread: it goes through, or the thread would wait; then
  -- the ring is as it was.
  unfoldable pub try_push : Ring A → A → Bool × Ring A
  try_push r x = pushed (push cap r x)
    where
      pushed : Option (Bool × Ring A) → Bool × Ring A
      pushed none = (false, r)
      pushed (some answer) = answer

  unfoldable pub try_pop : Ring A → A → Option A × Ring A
  try_pop r value = popped (pop cap r value)
    where
      popped : Option (Bool × A × Ring A) → Option A × Ring A
      popped none = (none, r)
      popped (some (b, x, r')) = (some x, r')

  -- A client's calls in order; one that would wait is given up.
  unfoldable pub run : Ring A → A → List (Call A) → List (Reply A)
  run r value [] = []
  run r value (put x ∷ calls) = let (b, r') = try_push r x in stored b ∷ run r' value calls
  run r value (get ∷ calls) = let (o, r') = try_pop r value in taken o ∷ run r' value calls

  -- Neither touches the flag.
  try_push-running : (r : Ring A) (x : A) → (try_push r x).1.stopped ≡ r.stopped
  unfolding try_push push
  try_push-running r x = ground arith

  try_pop-running : (r : Ring A) (value : A) → (try_pop r value).1.stopped ≡ r.stopped
  unfolding try_pop pop
  try_pop-running r value = ground arith

  -- A ring that stands for a queue, and is not stopped.
  abbrev IsLive : Ring A → List A → Type ℓ
  IsLive r q = Represents cap r q × (r.stopped ≡ false)

  offered :
      (r : Ring A) (q : List A) (x : A)
      → IsLive r q
      → ((try_push r x).0 ≡ (offer cap q x).0) × Represents cap (try_push r x).1 (offer cap q x).1
  unfolding try_push offer
  offered r q x (rep, going) = elim (Bool-cases (ltb (length q) cap)) [
    | inl room ↦
        let (r', went, rep') = push-room cap r q x rep (ltb→lt _ _ room) in
        rw (room, went) (refl, rep')
    | inr full ↦
        let filled : length q ≡ cap = omega (arith, rep.0.fits, ltb→le _ _ full) in
        rw (full, push-full cap r q x rep filled going) (refl, rep)
  ]

  polled :
      (r : Ring A) (q : List A) (value : A)
      → IsLive r q
      → ((try_pop r value).0 ≡ (poll q).0) × Represents cap (try_pop r value).1 (poll q).1
  unfolding try_pop poll
  polled r [] value (rep, going) = rw (pop-empty cap r value rep going) (refl, rep)
  polled r (x ∷ q) value (rep, going) =
      let (r', went, rep') = pop-first cap r x q value rep in rw went (refl, rep')

  -- Until it is stopped, the blocking ring goes through or waits as the bounded queue says.
  pub attempts_refine :
      (calls : List (Call A)) (r : Ring A) (q : List A) (value : A)
      → Represents cap r q
      → r.stopped ≡ false
      → run r value calls ≡ Queue.run cap q calls
  unfolding run Queue.run
  attempts_refine [] r q value rep going = refl
  attempts_refine (put x ∷ calls) r q value rep going =
      let (answer, next) = offered r q x (rep, going) in
      ap₂ (λ b l. stored b ∷ l) answer
        (attempts_refine calls _ _ value next (try_push-running r x ∙ going))
  attempts_refine (get ∷ calls) r q value rep going =
      let (answer, next) = polled r q value (rep, going) in
      ap₂ (λ o l. taken o ∷ l) answer
        (attempts_refine calls _ _ value next (try_pop-running r value ∙ going))

  -- The two kinds of ring are one queue to a client that makes its calls one at a time, from their
  -- constructors on, whatever was in the arrays and in the caller's variable: a call of the blocking
  -- ring goes through where the lock-free one says yes, and with the same item, and would wait where
  -- that says no; if the capacity is a power of two and the blocking ring is not stopped.
  pub rings_agree :
      (is_cap : IsCapacity cap) (storage storage' : List A)
      → length storage ≡ cap
      → length storage' ≡ cap
      → (calls : List (Call A)) (value value' : A)
      → LockFree.Refine.run cap is_cap (LockFree.init storage) value calls
        ≡ run (init storage') value' calls
  rings_agree is_cap storage storage' whole whole' calls value value' =
      let bounds = capacity_bounds cap is_cap in
      LockFree.Refine.run_refines cap is_cap calls (LockFree.init storage) 0 [] value
        (LockFree.Refine.init-Represents cap is_cap storage whole)
      ∙ sym (
          attempts_refine calls (init storage') [] value'
            (init-Represents cap storage' whole' (omega arith) (omega arith)) refl)
