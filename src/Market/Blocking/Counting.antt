-- ===== src/Market/Blocking/Counting.antt =====
-- What becomes of every tick of include/market/market_data_system_rw.h, and what its two counters count.
use fix_feed_simulator.Prelude.{
  ℕ, ◌+◌, ◌≤◌, ◌≡◌, refl, sym, ap, ◌∙◌, arith, [], ◌∷◌, ◌++◌, append_assoc, Bool, true, length,
  length-append,
}
use fix_feed_simulator.Market.Double.{Double}
use fix_feed_simulator.Market.NonBlocking.Counting.{Same64}
use fix_feed_simulator.Market.Blocking.{
  capacity, Source, Producer, Consumer, Stopper, System, Step, produce, produce_end, push,
  count_generated, consume, consume_end, pop, check_stopped, check_running, send_test, send_stopped,
  send_throws, send_returns, count_sent, watch, watch_end, wait_over, wait_stopped, take_generated,
  take_sent, stop_flag, stop_push, start, Reach, here, later,
}
use fix_feed_simulator.Market.Blocking.Invariant.{Reach-Inv}

-- A tick that is pushed and not yet counted.
abbrev pub uncounted_push {ℓ} : {F : Type ℓ} → Producer F → ℕ
uncounted_push Producer.counting = 1
uncounted_push Producer.looping = 0
uncounted_push (Producer.pushing tick) = 0
uncounted_push Producer.finished = 0

-- A tick that is taken and neither on the wire nor given up yet, and a message that is not counted
-- yet.
abbrev pub unsettled {ℓ} : {F : Type ℓ} → Consumer F → ℕ
unsettled (Consumer.checking tick) = 1
unsettled (Consumer.retrying message) = 1
unsettled (Consumer.sending message) = 1
unsettled Consumer.looping = 0
unsettled Consumer.polling = 0
unsettled Consumer.counting = 0
unsettled Consumer.finished = 0

abbrev pub uncounted_send {ℓ} : {F : Type ℓ} → Consumer F → ℕ
uncounted_send Consumer.counting = 1
uncounted_send (Consumer.retrying message) = 0
uncounted_send (Consumer.sending message) = 0
uncounted_send (Consumer.checking tick) = 0
uncounted_send Consumer.looping = 0
uncounted_send Consumer.polling = 0
uncounted_send Consumer.finished = 0

-- The dummy tick.
abbrev pub dummies : Stopper → ℕ
dummies Stopper.idle = 0
dummies Stopper.pushing = 0
dummies Stopper.returned = 1

pub record Counts {ℓ} {F W : Type ℓ} (s : System F W) : Type 0 where
  pub pushes :
      Same64
        (s.reported_generated + s.ticks_generated + uncounted_push s.producer + dummies s.stopper)
        (length s.pushed)
  pub pops :
      s.has_sender ≡ true
      → length s.popped ≡ length s.wire + s.given_up + s.unread + unsettled s.consumer
  pub sends :
      s.has_sender ≡ true
      → Same64
          (s.reported_sent + s.ticks_sent + uncounted_send s.consumer)
          (length s.wire + s.given_up)

module _ {ℓ} {F W : Type ℓ} (d : Double F) (rand_max : ℕ) (source : Source F W) where
  Step-Counts : {s t : System F W} → Step d rand_max source s t → Counts s → Counts t
  Step-Counts {s} (produce z rand₁ rand₂ at go) inv = ground arith
  Step-Counts {s} (produce_end at go) inv = ground arith
  Step-Counts {s} (push tick at room) inv = ground (arith, length-append s.pushed (tick ∷ []))
  Step-Counts {s} (count_generated at) inv = ground arith
  Step-Counts {s} (consume at go) inv = ground arith
  Step-Counts {s} (consume_end at go) inv = ground arith
  Step-Counts {s} (pop tick rest at e) inv = ground (arith, length-append s.popped (tick ∷ []))
  Step-Counts {s} (check_stopped tick at off) inv = ground arith
  Step-Counts {s} (check_running tick at on) inv = ground arith
  Step-Counts {s} (send_test message at go) inv = ground arith
  Step-Counts {s} (send_stopped message at go) inv = ground arith
  Step-Counts {s} (send_throws message answer at e) inv = ground arith
  Step-Counts {s} (send_returns message answer outcome at e ne) inv =
      ground (arith, length-append s.wire (message ∷ []))
  Step-Counts {s} (count_sent at) inv = ground arith
  Step-Counts {s} (watch at go) inv = ground arith
  Step-Counts {s} (watch_end at go) inv = ground arith
  Step-Counts {s} (wait_over at go) inv = ground arith
  Step-Counts {s} (wait_stopped at go) inv = ground arith
  Step-Counts {s} (take_generated at) inv = ground arith
  Step-Counts {s} (take_sent at) inv = ground arith
  Step-Counts {s} (stop_flag at) inv = ground arith
  Step-Counts {s} (stop_push dummy at room) inv =
      ground (arith, length-append s.pushed (dummy ∷ []))

  Reach-Counts :
      {has_sender : Bool} {s : System F W} → Reach d rand_max source has_sender s → Counts s
  Reach-Counts here = unfold start in ground arith
  Reach-Counts (later r st) = Step-Counts st (Reach-Counts r)

  Step-order :
      {s t : System F W}
      → Step d rand_max source s t
      → s.pushed ≡ s.popped ++ s.queue
      → t.pushed ≡ t.popped ++ t.queue
  Step-order {s} (push tick at room) e =
      ap (λ l. l ++ tick ∷ []) e ∙ append_assoc s.popped s.queue (tick ∷ [])
  Step-order {s} (stop_push dummy at room) e =
      ap (λ l. l ++ dummy ∷ []) e ∙ append_assoc s.popped s.queue (dummy ∷ [])
  Step-order {s} (pop tick rest at front) e =
      e ∙ ap (λ l. s.popped ++ l) front ∙ sym (append_assoc s.popped (tick ∷ []) rest)
  Step-order _ e = e

  Reach-order :
      {has_sender : Bool} {s : System F W}
      → Reach d rand_max source has_sender s
      → s.pushed ≡ s.popped ++ s.queue
  Reach-order here = unfold start in refl
  Reach-order (later r st) = Step-order st (Reach-order r)

  Step-sender : {s t : System F W} → Step d rand_max source s t → t.has_sender ≡ s.has_sender
  Step-sender (produce z rand₁ rand₂ at go) = refl
  Step-sender _ = refl

  Reach-sender :
      {has_sender : Bool} {s : System F W}
      → Reach d rand_max source has_sender s
      → s.has_sender ≡ has_sender
  Reach-sender here = unfold start in refl
  Reach-sender (later r st) = Step-sender st ∙ Reach-sender r

  -- In every reachable state with a sender, whatever the generator: the ticks pushed are, in order,
  -- those popped and then those in the queue, which is within its capacity; the generated count, with
  -- what the monitor has taken of it, is the number of those pushed without the dummy of `stop`, up
  -- to the one just pushed; every tick popped went on the wire whole, was given up, was left unread
  -- at the end, or is under way; and the sent count, with what the monitor has taken of it, counts
  -- those on the wire and those given up, up to the one not yet counted. The counts are `uint64_t`.
  pub blocking_accounted :
      {s : System F W}
      → Reach d rand_max source true s
      → (s.pushed ≡ s.popped ++ s.queue)
        × (length s.queue ≤ capacity)
        × Same64
            (s.reported_generated
              + s.ticks_generated
              + uncounted_push s.producer
              + dummies s.stopper)
            (length s.pushed)
        × (length s.popped ≡ length s.wire + s.given_up + s.unread + unsettled s.consumer)
        × Same64
            (s.reported_sent + s.ticks_sent + uncounted_send s.consumer)
            (length s.wire + s.given_up)
  blocking_accounted r =
      let counts = Reach-Counts r in
      let on = Reach-sender r in
      (
        Reach-order r,
        (Reach-Inv d rand_max source r).room,
        counts.pushes,
        counts.pops on,
        counts.sends on,
      )
