-- ===== src/Benchmarks/Transfer/Ends.antt =====
-- A transfer of tests/benchmark_throughput.cpp comes to its end, and all items with it.
use fix_feed_simulator.Prelude.{
  ℕ, zero, suc, Option, ◌+◌, ◌*◌, ◌<◌, ◌≤◌, ◌≡◌, refl, sym, ap, ◌∙◌, arith, ◌⊎◌, inl, inr, List, [],
  ◌∷◌, ◌++◌, append-nil, Bool, none, some, length, length-append,
}
use fix_feed_simulator.Prelude.Words.{size_mod}
use fix_feed_simulator.Core.Blocking.{Ring, init, push, pop}
use fix_feed_simulator.Core.Blocking.Waiting as Waiting
use fix_feed_simulator.Core.Blocking.Waiting.{
  Phase, running, asleep, woken, notifying, idle, flagged, half,
}
use fix_feed_simulator.Core.Blocking.Waiting.Wakeups.{no_lost_wakeup, no_deadlock}
use fix_feed_simulator.Benchmarks.Transfer.{
  Transfer, Step, push_calls, push_goes, push_waits, push_notifies, pop_calls, pop_goes, pop_waits,
  pop_notifies, Spurious, push_spurious, pop_spurious, Reach, here, later, woken_up,
}
use fix_feed_simulator.Benchmarks.Transfer.Invariant.{in_hand, due, Inv, Reach-Inv}

-- At most so many steps are to come in the call, the other side's notifications aside.
abbrev phase_work : Phase → ℕ
phase_work running = 0
phase_work woken = 3
phase_work asleep = 2
phase_work notifying = 2

wake-work : (p : Phase) → phase_work (Waiting.wake p) ≤ phase_work p + 1
wake-work running = omega arith
wake-work woken = omega arith
wake-work asleep = omega arith
wake-work notifying = omega arith

empty {ℓ} : {A : Type ℓ} (xs : List A) → length xs ≡ 0 → xs ≡ []
empty [] h = refl
empty (x ∷ xs) h = absurd (omega arith)

module _ {ℓ} {A : Type ℓ} (cap : ℕ) where
  abbrev work : Transfer A → ℕ
  work s =
      4 * (length s.to_send + s.to_take) + phase_work s.calls.producer + phase_work s.calls.consumer

  Step-work : {s t : Transfer A} → Step cap s t → suc (work t) ≤ work s
  Step-work {s} (push_calls item rest left at) = omega (arith, ap length left, ap phase_work at)
  Step-work {s} (push_goes answer r at e) = omega (arith, ap phase_work at)
  Step-work {s} (push_waits at e) = omega (arith, ap phase_work at)
  Step-work {s} (push_notifies at) = omega (arith, ap phase_work at, wake-work s.calls.consumer)
  Step-work {s} (pop_calls n left at) = omega (arith, left, ap phase_work at)
  Step-work {s} (pop_goes old value answer r at e) = omega (arith, ap phase_work at)
  Step-work {s} (pop_waits old at e) = omega (arith, ap phase_work at)
  Step-work {s} (pop_notifies at) = omega (arith, ap phase_work at, wake-work s.calls.producer)

  Spurious-work : {s t : Transfer A} → Spurious cap s t → work t ≤ work s + 1
  Spurious-work {s} push_spurious = omega (arith, wake-work s.calls.producer)
  Spurious-work {s} pop_spurious = omega (arith, wake-work s.calls.consumer)

  Reach-work :
      {storage : List A} {any : A} {items : List A} {n k : ℕ} {s : Transfer A}
      → Reach cap storage any items n k s
      → n + work s ≤ 8 * length items + k
  Reach-work here = omega arith
  Reach-work (later reach st) = omega (arith, Reach-work reach, Step-work st)
  Reach-work (woken_up reach st) = omega (arith, Reach-work reach, Spurious-work st)

  -- Both threads are out of their loops.
  abbrev pub IsFinished : Transfer A → Type ℓ
  IsFinished s =
      (s.to_send ≡ [])
      × (s.to_take ≡ 0)
      × (s.calls.producer ≡ running)
      × (s.calls.consumer ≡ running)

  abbrev pub HasEnded : List A → Transfer A → Type ℓ
  HasEnded items s = IsFinished s × (s.received ≡ items)

  abbrev pub CanStep : Transfer A → Type ℓ
  CanStep s = (t : Transfer A) × Step cap s t

  push_steps :
      (s : Transfer A) (outcome : Option (Bool × Ring A))
      → s.calls.producer ≡ woken
      → push cap s.calls.ring s.calls.item ≡ outcome
      → CanStep s
  push_steps s none at e = (_, push_waits at e)
  push_steps s (some (answer, r)) at e = (_, push_goes answer r at e)

  pop_steps :
      (s : Transfer A) (outcome : Option (Bool × A × Ring A))
      → s.calls.consumer ≡ woken
      → pop cap s.calls.ring s.calls.item ≡ outcome
      → CanStep s
  pop_steps s none at e = (_, pop_waits s.calls.item at e)
  pop_steps s (some (answer, value, r)) at e = (_, pop_goes s.calls.item value answer r at e)

  -- A thread that cannot go on sleeps or is out of its loop.
  producer_cases :
      (s : Transfer A) (p : Phase) (items : List A)
      → s.calls.producer ≡ p
      → s.to_send ≡ items
      → CanStep s ⊎ (s.calls.producer ≡ asleep) ⊎ ((s.calls.producer ≡ running) × (s.to_send ≡ []))
  producer_cases s running [] at left = inr (inr (at, left))
  producer_cases s running (item ∷ rest) at left = inl (_, push_calls item rest left at)
  producer_cases s asleep items at left = inr (inl at)
  producer_cases s woken items at left = inl (push_steps s _ at refl)
  producer_cases s notifying items at left = inl (_, push_notifies at)

  consumer_cases :
      (s : Transfer A) (p : Phase) (n : ℕ)
      → s.calls.consumer ≡ p
      → s.to_take ≡ n
      → CanStep s ⊎ (s.calls.consumer ≡ asleep) ⊎ ((s.calls.consumer ≡ running) × (s.to_take ≡ 0))
  consumer_cases s running zero at left = inr (inr (at, left))
  consumer_cases s running (suc n) at left = inl (_, pop_calls n left at)
  consumer_cases s asleep n at left = inr (inl at)
  consumer_cases s woken n at left = inl (pop_steps s _ at refl)
  consumer_cases s notifying n at left = inl (_, pop_notifies at)

  module _ (storage : List A) (any : A) (items : List A) (pos : 0 < cap) where
    -- The items that are not received are in the ring, in a call, or in the producer's loop.
    lengths :
        (s : Transfer A) (inv : Inv cap storage any items s)
        → length items
          ≡ length s.received
            + length inv.queue
            + length (in_hand s.calls.producer s.calls.item)
            + length s.to_send
    lengths s inv =
        let held = in_hand s.calls.producer s.calls.item in
        omega (
          arith,
          ap length inv.order,
          length-append s.received (inv.queue ++ (held ++ s.to_send)),
          length-append inv.queue (held ++ s.to_send),
          length-append held s.to_send,
        )

    both_asleep :
        (s : Transfer A) (inv : Inv cap storage any items s)
        → s.calls.producer ≡ asleep
        → s.calls.consumer ≡ asleep
        → s.calls.stopper ≡ flagged ⊎ (s.calls.stopper ≡ half)
    both_asleep s inv at at' = (no_deadlock cap (init storage) any pos refl inv.waits).0 at at'

    ended :
        (s : Transfer A) (inv : Inv cap storage any items s)
        → (s.calls.producer ≡ running) × (s.to_send ≡ [])
        → (s.calls.consumer ≡ running) × (s.to_take ≡ 0)
        → HasEnded items s
    ended s inv (at, sent_all) (at', took_all) =
        let left = inv.queue ++ (in_hand s.calls.producer s.calls.item ++ s.to_send) in
        let none_left : length left ≡ 0 = omega (
          arith,
          ap length inv.order,
          length-append s.received left,
          inv.takes,
          took_all,
          ap due at',
        ) in
        (
          (sent_all, took_all, at, at'),
          sym (append-nil s.received)
              ∙ ap (λ l. s.received ++ l) (sym (empty left none_left))
              ∙ sym inv.order,
        )

    -- The threads cannot both be stuck.
    stuck_cases :
        (s : Transfer A) (inv : Inv cap storage any items s)
        → (s.calls.producer ≡ asleep) ⊎ ((s.calls.producer ≡ running) × (s.to_send ≡ []))
        → (s.calls.consumer ≡ asleep) ⊎ ((s.calls.consumer ≡ running) × (s.to_take ≡ 0))
        → HasEnded items s
    stuck_cases s inv (inl at) (inl at') = absurd (elim (both_asleep s inv at at') [
      | inl f ↦ (let both = sym inv.idle_stop ∙ f in cc)
      | inr h ↦ (let both = sym inv.idle_stop ∙ h in cc)
    ])
    stuck_cases s inv (inl at) (inr (at', took_all)) = absurd (
        omega (
          arith,
          lengths s inv,
          inv.takes,
          took_all,
          ap due at',
          ap (λ p. length (in_hand p s.calls.item)) at,
        ))
    stuck_cases s inv (inr (at, sent_all)) (inl at') =
        let holds_one : 0 < s.calls.ring.count = omega (
          arith,
          lengths s inv,
          inv.holds.0.counts,
          inv.takes,
          ap due at',
          ap length sent_all,
          ap (λ p. length (in_hand p s.calls.item)) at,
        ) in
        absurd (elim ((no_lost_wakeup cap (init storage) any refl inv.waits).1 at' holds_one) [
          | inl f ↦ (let both = sym inv.idle_stop ∙ f in cc)
          | inr (inl h) ↦ (let both = sym inv.idle_stop ∙ h in cc)
          | inr (inr n) ↦ (let both = sym at ∙ n in cc)
        ])
    stuck_cases s inv (inr done) (inr done') = ended s inv done done'

    -- The producer pushes the items one after the other and the consumer pops as often, over a ring
    -- with at least one slot: in every state, however the calls wait and wake, the threads have taken
    -- no more than eight steps for each item and one for each wakeup for no reason; the items
    -- received are the first ones, in order; and either a thread can take a step, or both are out of
    -- their loops and all items are received.
    pub transfer_ends :
        {n k : ℕ} {s : Transfer A}
        → length storage ≡ cap
        → cap + 1 < size_mod
        → Reach cap storage any items n k s
        → (n ≤ 8 * length items + k)
          × ((left : List A) × (items ≡ s.received ++ left))
          × (CanStep s ⊎ HasEnded items s)
    transfer_ends {n} {k} {s} size small reach =
        let inv = Reach-Inv cap storage any items size pos small reach in
        let producer = producer_cases s _ _ refl refl in
        let consumer = consumer_cases s _ _ refl refl in
        (
          omega (arith, Reach-work reach),
          (_, inv.order),
          elim producer [
            | inl goes ↦ inl goes
            | inr waits ↦ elim consumer [
              | inl goes ↦ inl goes
              | inr waits' ↦ inr (stuck_cases s inv waits waits')
            ]
          ],
        )
