-- ===== src/Market/NonBlocking/Counting.antt =====
-- What the two counters of include/market/market_data_system_rw_nonblocking.h count.
use fix_feed_simulator.Prelude.{
  ℕ, ◌+◌, ◌%◌, ◌^◌, ◌≡◌, refl, ap, ◌∙◌, arith, [], ◌∷◌, Bool, true, length, length-append,
}
use fix_feed_simulator.Market.Double.{Double}
use fix_feed_simulator.Market.NonBlocking.{
  Producer, Consumer, System, Step, produce, produce_end, push_ok, push_refused, push_again,
  push_abandon, count_generated, consume, consume_end, pop_refused, pop_ok, send_test, send_stopped,
  send_throws, send_returns, count_sent, watch, watch_end, wait_over, wait_stopped, take_generated,
  take_sent, stop, start, Reach, here, later,
}

-- A tick that is pushed and not yet counted.
abbrev pub uncounted_push {ℓ} : {F : Type ℓ} → Producer F → ℕ
uncounted_push Producer.counting = 1
uncounted_push Producer.looping = 0
uncounted_push (Producer.pushing tick) = 0
uncounted_push (Producer.refused tick) = 0
uncounted_push Producer.finished = 0

-- A message that is neither on the wire nor given up yet, and one that is not yet counted.
abbrev pub unsettled : Consumer → ℕ
unsettled Consumer.looping = 0
unsettled Consumer.polling = 0
unsettled Consumer.counting = 0
unsettled Consumer.finished = 0
unsettled (Consumer.retrying message) = 1
unsettled (Consumer.sending message) = 1

abbrev pub uncounted_send : Consumer → ℕ
uncounted_send Consumer.looping = 0
uncounted_send Consumer.polling = 0
uncounted_send Consumer.counting = 1
uncounted_send Consumer.finished = 0
uncounted_send (Consumer.retrying message) = 1
uncounted_send (Consumer.sending message) = 1

-- Equal as `uint64_t`.
abbrev pub Same64 : ℕ → ℕ → Type 0
Same64 a b = a % 2 ^ 64 ≡ b % 2 ^ 64

pub record Inv {ℓ} {F : Type ℓ} (s : System F) : Type 0 where
  pub pushes :
      Same64
        (s.reported_generated + s.ticks_generated + uncounted_push s.producer)
        (length s.pushed)
  pub pops :
      s.has_sender ≡ true → length s.popped ≡ length s.wire + s.given_up + unsettled s.consumer
  pub sends :
      s.has_sender ≡ true
      → Same64 (s.reported_sent + s.ticks_sent + uncounted_send s.consumer) (length s.popped)

module _ {ℓ} {F : Type ℓ} (d : Double F) (rand_max : ℕ) where
  Step-Inv : {s t : System F} → Step d rand_max s t → Inv s → Inv t
  Step-Inv {s} (produce z rand₁ rand₂ at go) inv = ground arith
  Step-Inv {s} (produce_end at go) inv = ground arith
  Step-Inv {s} (push_ok tick at room) inv =
      ground (arith, length-append s.queue (tick ∷ []), length-append s.pushed (tick ∷ []))
  Step-Inv {s} (push_refused tick at) inv = ground arith
  Step-Inv {s} (push_again tick at go) inv = ground arith
  Step-Inv {s} (push_abandon tick at go) inv = ground arith
  Step-Inv {s} (count_generated at) inv = ground arith
  Step-Inv {s} (consume at go) inv = ground arith
  Step-Inv {s} (consume_end at go) inv = ground arith
  Step-Inv {s} (pop_refused at) inv = ground arith
  Step-Inv {s} (pop_ok tick rest at e) inv =
      ground (arith, ap length e, length-append s.popped (tick ∷ []))
  Step-Inv {s} (send_test message at go) inv = ground arith
  Step-Inv {s} (send_stopped message at go) inv = ground arith
  Step-Inv {s} (send_throws message answer at e) inv = ground arith
  Step-Inv {s} (send_returns message answer outcome at e ne) inv =
      ground (arith, length-append s.wire (message ∷ []))
  Step-Inv {s} (count_sent at) inv = ground arith
  Step-Inv {s} (watch at go) inv = ground arith
  Step-Inv {s} (watch_end at go) inv = ground arith
  Step-Inv {s} (wait_over at go) inv = ground arith
  Step-Inv {s} (wait_stopped at go) inv = ground arith
  Step-Inv {s} (take_generated at) inv = ground arith
  Step-Inv {s} (take_sent at) inv = ground arith
  Step-Inv {s} (stop go) inv = ground arith

  Inv-start : (has_sender : Bool) → Inv (start d rand_max has_sender)
  unfolding start
  Inv-start has_sender = ground arith

  Reach-Inv : {has_sender : Bool} {s : System F} → Reach d rand_max has_sender s → Inv s
  Reach-Inv {has_sender} here = Inv-start has_sender
  Reach-Inv (later r st) = Step-Inv st (Reach-Inv r)

  Step-sender : {s t : System F} → Step d rand_max s t → t.has_sender ≡ s.has_sender
  Step-sender (produce z rand₁ rand₂ at go) = refl
  Step-sender _ = refl

  Reach-sender :
      {has_sender : Bool} {s : System F} → Reach d rand_max has_sender s → s.has_sender ≡ has_sender
  Reach-sender here = unfold start in refl
  Reach-sender (later r st) = Step-sender st ∙ Reach-sender r

  -- In every reachable state the generated count, with what the monitor has taken of it, is the
  -- number of ticks pushed, up to the one just pushed; as `uint64_t`.
  pub generated_counts :
      {has_sender : Bool} {s : System F}
      → Reach d rand_max has_sender s
      → Same64
          (s.reported_generated + s.ticks_generated + uncounted_push s.producer)
          (length s.pushed)
  generated_counts r = (Reach-Inv r).pushes

  -- In every reachable state with a sender, the sent count, with what the monitor has taken of it,
  -- is the number of messages on the wire and of those given up, up to the one under way; as
  -- `uint64_t`. So it counts a message that the kernel refused for good, that was cut short, or
  -- that was dropped at `stop`, as sent.
  pub sent_counts :
      {s : System F}
      → Reach d rand_max true s
      → Same64
          (s.reported_sent + s.ticks_sent + uncounted_send s.consumer)
          (length s.wire + s.given_up + unsettled s.consumer)
  sent_counts {s} r =
      let inv = Reach-Inv r in
      let on = Reach-sender r in inv.sends on ∙ ap (λ n. n % 2 ^ 64) (inv.pops on)
