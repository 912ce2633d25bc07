-- ===== src/Benchmarks/Transfer/Invariant.antt =====
-- What holds in every state of a transfer of tests/benchmark_throughput.cpp.
use fix_feed_simulator.Prelude.{
  ℕ, ◌+◌, ◌<◌, inl, inr, ltb, ltb→lt, ltb→le, Bool-cases, ◌≡◌, refl, sym, subst, ap, ◌∙◌, arith,
  List, [], ◌∷◌, ◌++◌, append_assoc, length-append, Bool, false, some, length,
}
use fix_feed_simulator.Prelude.Words.{size_mod}
use fix_feed_simulator.Core.Blocking.{Ring, init, push, pop}
use fix_feed_simulator.Core.Blocking.Refine.{
  Represents, init-Represents, push-room, push-full, pop-first, pop-empty,
}
use fix_feed_simulator.Core.Blocking.Waiting as Waiting
use fix_feed_simulator.Core.Blocking.Waiting.{Phase, running, asleep, woken, notifying, idle}
use fix_feed_simulator.Benchmarks.Transfer.{
  Transfer, Step, push_calls, push_goes, push_waits, push_notifies, pop_calls, pop_goes, pop_waits,
  pop_notifies, Spurious, push_spurious, pop_spurious, Reach, here, later, woken_up,
}

-- The item of a call of `push` that has not put it into the ring yet.
abbrev pub in_hand {ℓ} : {A : Type ℓ} → Phase → A → List A
in_hand running item = []
in_hand woken item = item ∷ []
in_hand asleep item = item ∷ []
in_hand notifying item = []

-- Whether a call of `pop` is to take one more.
abbrev pub due : Phase → ℕ
due running = 0
due woken = 1
due asleep = 1
due notifying = 0

wake-in_hand {ℓ} :
    {A : Type ℓ} (p : Phase) (item : A) → in_hand (Waiting.wake p) item ≡ in_hand p item
wake-in_hand running item = refl
wake-in_hand woken item = refl
wake-in_hand asleep item = refl
wake-in_hand notifying item = refl

wake-due : (p : Phase) → due (Waiting.wake p) ≡ due p
wake-due running = refl
wake-due woken = refl
wake-due asleep = refl
wake-due notifying = refl

module _ {ℓ} {A : Type ℓ} (cap : ℕ) where
  push-flag :
      (r r' : Ring A) (x : A) (answer : Bool)
      → push cap r x ≡ some (answer, r')
      → r'.stopped ≡ r.stopped
  unfolding push
  push-flag r r' x answer e = ground arith

  pop-flag :
      (r r' : Ring A) (old value : A) (answer : Bool)
      → pop cap r old ≡ some (answer, value, r')
      → r'.stopped ≡ r.stopped
  unfolding pop
  pop-flag r r' old value answer e = ground arith

  -- A call of `push` that goes on has put its item behind the others, and the flag stays.
  push-some :
      (r r' : Ring A) (q : List A) (x : A) (answer : Bool)
      → Represents cap r q
      → r.stopped ≡ false
      → push cap r x ≡ some (answer, r')
      → Represents cap r' (q ++ x ∷ [])
  push-some r r' q x answer holds going e = elim (Bool-cases (ltb (length q) cap)) [
    | inl room ↦
        let (r₁, e₁, holds₁) = push-room cap r q x holds (ltb→lt _ _ room) in
        let both = sym e₁ ∙ e in
        let same : r₁ ≡ r' = cc in subst (λ r. Represents cap r (q ++ x ∷ [])) same holds₁
    | inr full ↦
        let waits =
          push-full cap r q x holds (omega (arith, holds.0.fits, ltb→le _ _ full)) going in
        absurd (let both = sym waits ∙ e in cc)
  ]

  -- One of `pop` has taken the first.
  pop-some :
      (r r' : Ring A) (q : List A) (old value : A) (answer : Bool)
      → Represents cap r q
      → r.stopped ≡ false
      → pop cap r old ≡ some (answer, value, r')
      → (q' : List A) × (q ≡ value ∷ q') × Represents cap r' q'
  pop-some r r' [] old value answer holds going e =
      absurd (let both = sym (pop-empty cap r old holds going) ∙ e in cc)
  pop-some r r' (x ∷ q) old value answer holds going e =
      let (r₁, e₁, holds₁) = pop-first cap r x q old holds in
      let both = sym e₁ ∙ e in
      let same : r₁ ≡ r' = cc in
      let first : x ≡ value = cc in
      (q, ap (λ y. y ∷ q) first, subst (λ r. Represents cap r q) same holds₁)

module _ {ℓ} {A : Type ℓ} (cap : ℕ) (storage : List A) (any : A) (items : List A) where
  -- The ring holds `queue`; nothing is lost, doubled or overtaken, and there are as many pops to
  -- come as items that are not received.
  pub record Inv (s : Transfer A) : Type ℓ where
    pub waits : Waiting.Reach cap (init storage) any s.calls
    pub going : s.calls.ring.stopped ≡ false
    pub idle_stop : s.calls.stopper ≡ idle
    pub queue : List A
    pub holds : Represents cap s.calls.ring queue
    pub order :
        items ≡ s.received ++ (queue ++ (in_hand s.calls.producer s.calls.item ++ s.to_send))
    pub takes : length s.received + due s.calls.consumer + s.to_take ≡ length items

  abbrev InOrder : List A → Transfer A → Type ℓ
  InOrder queue s =
      items ≡ s.received ++ (queue ++ (in_hand s.calls.producer s.calls.item ++ s.to_send))

  abbrev IsCounted : Transfer A → Type 0
  IsCounted s = length s.received + due s.calls.consumer + s.to_take ≡ length items

  -- A step that leaves the ring alone.
  still-Inv :
      {s t : Transfer A}
      → (Waiting.Reach cap (init storage) any s.calls
          → Waiting.Reach cap (init storage) any t.calls)
      → t.calls.ring ≡ s.calls.ring
      → t.calls.stopper ≡ s.calls.stopper
      → (inv : Inv s) → InOrder inv.queue t
      → IsCounted t
      → Inv t
  still-Inv {s} {t} goes ring stopper inv order takes = record {
    waits = goes inv.waits;
    going = ap (λ (r : Ring A). r.stopped) ring ∙ inv.going;
    idle_stop = stopper ∙ inv.idle_stop;
    queue = inv.queue;
    holds = subst (λ r. Represents cap r inv.queue) (sym ring) inv.holds;
    order = order;
    takes = takes;
  }

  Step-Inv : {s t : Transfer A} → Step cap s t → Inv s → Inv t
  Step-Inv {s} (push_calls item rest left at) inv =
      still-Inv (λ w. Waiting.later w (Waiting.push_calls item at)) refl refl inv
        (inv.order ∙ rw (at, left) refl) inv.takes
  Step-Inv {s} (push_goes answer r at e) inv = record {
    waits = Waiting.later inv.waits (Waiting.push_goes answer r at e);
    going = push-flag cap s.calls.ring r s.calls.item answer e ∙ inv.going;
    idle_stop = inv.idle_stop;
    queue = inv.queue ++ s.calls.item ∷ [];
    holds = push-some cap s.calls.ring r inv.queue s.calls.item answer inv.holds inv.going e;
    order =
        inv.order
        ∙ rw at (
            ap (λ l. s.received ++ l) (sym (append_assoc inv.queue (s.calls.item ∷ []) s.to_send)));
    takes = inv.takes;
  }
  Step-Inv {s} (push_waits at e) inv =
      still-Inv (λ w. Waiting.later w (Waiting.push_waits at e)) refl refl inv
        (inv.order ∙ rw at refl) inv.takes
  Step-Inv {s} (push_notifies at) inv =
      still-Inv (λ w. Waiting.later w (Waiting.push_notifies at)) refl refl inv
        (inv.order ∙ rw at refl) (rw (wake-due s.calls.consumer) inv.takes)
  Step-Inv {s} (pop_calls n left at) inv =
      still-Inv (λ w. Waiting.later w (Waiting.pop_calls at)) refl refl inv inv.order
        (omega (arith, inv.takes, left, ap due at))
  Step-Inv {s} (pop_goes old value answer r at e) inv =
      let (q, front, holds) =
        pop-some cap s.calls.ring r inv.queue old value answer inv.holds inv.going e in
      record {
        waits = Waiting.later inv.waits (Waiting.pop_goes old value answer r at e);
        going = pop-flag cap s.calls.ring r old value answer e ∙ inv.going;
        idle_stop = inv.idle_stop;
        queue = q;
        holds = holds;
        order =
            inv.order
            ∙ ap (λ l. s.received ++ (l ++ (in_hand s.calls.producer s.calls.item ++ s.to_send)))
                front
            ∙ sym (append_assoc s.received (value ∷ []) _);
        takes = omega (arith, inv.takes, length-append s.received (value ∷ []), ap due at);
      }
  Step-Inv {s} (pop_waits old at e) inv =
      still-Inv (λ w. Waiting.later w (Waiting.pop_waits old at e)) refl refl inv inv.order
        (omega (arith, inv.takes, ap due at))
  Step-Inv {s} (pop_notifies at) inv =
      still-Inv (λ w. Waiting.later w (Waiting.pop_notifies at)) refl refl inv
        (rw (wake-in_hand s.calls.producer s.calls.item) inv.order)
        (omega (arith, inv.takes, ap due at))

  Spurious-Inv : {s t : Transfer A} → Spurious cap s t → Inv s → Inv t
  Spurious-Inv {s} push_spurious inv =
      still-Inv (λ w. Waiting.later w Waiting.push_spurious) refl refl inv
        (rw (wake-in_hand s.calls.producer s.calls.item) inv.order) inv.takes
  Spurious-Inv {s} pop_spurious inv =
      still-Inv (λ w. Waiting.later w Waiting.pop_spurious) refl refl inv inv.order
        (rw (wake-due s.calls.consumer) inv.takes)

  pub Reach-Inv :
      {n k : ℕ} {s : Transfer A}
      → length storage ≡ cap
      → 0 < cap
      → cap + 1 < size_mod
      → Reach cap storage any items n k s
      → Inv s
  Reach-Inv size pos small here = record {
    waits = Waiting.here;
    going = refl;
    idle_stop = refl;
    queue = [];
    holds = init-Represents cap storage size pos small;
    order = refl;
    takes = omega arith;
  }
  Reach-Inv size pos small (later reach st) = Step-Inv st (Reach-Inv size pos small reach)
  Reach-Inv size pos small (woken_up reach st) = Spurious-Inv st (Reach-Inv size pos small reach)
