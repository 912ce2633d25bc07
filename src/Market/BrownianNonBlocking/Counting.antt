-- ===== src/Market/BrownianNonBlocking/Counting.antt =====
-- What becomes of every tick of include/market/market_data_system_gbm_nonblocking.h, and what its
-- two counters count.
use fix_feed_simulator.Prelude.{
  ℕ, ◌+◌, ◌≤◌, ◌≡◌, refl, sym, ap, ◌∙◌, arith, [], ◌∷◌, ◌++◌, append_assoc, Bool, true, length,
  length-append,
}
use fix_feed_simulator.Market.Double.{Double}
use fix_feed_simulator.Market.Blocking.{Producer}
use fix_feed_simulator.Market.Blocking.Counting.{uncounted_push, unsettled, uncounted_send}
use fix_feed_simulator.Market.NonBlocking.Counting.{Same64}
use fix_feed_simulator.Market.BrownianNonBlocking.{
  capacity, System, Step, produce, produce_end, push_ok, push_refused, count_generated, consume,
  consume_end, pop_refused, pop_ok, check_stopped, check_running, send_test, send_stopped,
  send_throws, send_returns, count_sent, watch, watch_end, wait_over, wait_stopped, take_generated,
  take_sent, stop, start, Reach, here, later,
}

-- The tick in the producer's hands.
abbrev pub in_hand {ℓ} : {F : Type ℓ} → Producer F → ℕ
in_hand (Producer.pushing tick) = 1
in_hand Producer.looping = 0
in_hand Producer.counting = 0
in_hand Producer.finished = 0

pub record Inv {ℓ} {F : Type ℓ} (s : System F) : Type 0 where
  pub room : length s.queue ≤ capacity
  pub makes : s.made ≡ length s.pushed + s.dropped + in_hand s.producer
  pub pushes :
      Same64
        (s.reported_generated + s.ticks_generated + uncounted_push s.producer)
        (length s.pushed)
  pub pops :
      s.has_sender ≡ true
      → length s.popped ≡ length s.wire + s.given_up + s.unread + unsettled s.consumer
  pub sends :
      s.has_sender ≡ true
      → Same64
          (s.reported_sent + s.ticks_sent + uncounted_send s.consumer)
          (length s.wire + s.given_up)

module _ {ℓ} {F : Type ℓ} (d : Double F) (rand_max : ℕ) where
  Step-Inv : {s t : System F} → Step d rand_max s t → Inv s → Inv t
  Step-Inv {s} (produce z rand₁ rand₂ at go) inv = ground arith
  Step-Inv {s} (produce_end at go) inv = ground arith
  Step-Inv {s} (push_ok tick at room) inv =
      ground (arith, length-append s.queue (tick ∷ []), length-append s.pushed (tick ∷ []))
  Step-Inv {s} (push_refused tick at) inv = ground arith
  Step-Inv {s} (count_generated at) inv = ground arith
  Step-Inv {s} (consume at go) inv = ground arith
  Step-Inv {s} (consume_end at go) inv = ground arith
  Step-Inv {s} (pop_refused at) inv = ground arith
  Step-Inv {s} (pop_ok tick rest at e) inv =
      ground (arith, ap length e, length-append s.popped (tick ∷ []))
  Step-Inv {s} (check_stopped tick at off) inv = ground arith
  Step-Inv {s} (check_running tick at on) inv = ground arith
  Step-Inv {s} (send_test message at go) inv = ground arith
  Step-Inv {s} (send_stopped message at go) inv = ground arith
  Step-Inv {s} (send_throws message answer at e) inv = ground arith
  Step-Inv {s} (send_returns message answer outcome at e ne) inv =
      ground (arith, length-append s.wire (message ∷ []))
  Step-Inv {s} (count_sent at) inv = ground arith
  Step-Inv {s} (watch at go) inv = ground arith
  Step-Inv {s} (watch_end at go) inv = ground arith
  Step-Inv {s} (wait_over at go) inv = ground arith
  Step-Inv {s} (wait_stopped at go) inv = ground arith
  Step-Inv {s} (take_generated at) inv = ground arith
  Step-Inv {s} (take_sent at) inv = ground arith
  Step-Inv {s} (stop go) inv = ground arith

  Reach-Inv : {has_sender : Bool} {s : System F} → Reach d rand_max has_sender s → Inv s
  Reach-Inv here = unfold start in ground arith
  Reach-Inv (later r st) = Step-Inv st (Reach-Inv r)

  Step-sender : {s t : System F} → Step d rand_max s t → t.has_sender ≡ s.has_sender
  Step-sender (produce z rand₁ rand₂ at go) = refl
  Step-sender _ = refl

  Reach-sender :
      {has_sender : Bool} {s : System F} → Reach d rand_max has_sender s → s.has_sender ≡ has_sender
  Reach-sender here = unfold start in refl
  Reach-sender (later r st) = Step-sender st ∙ Reach-sender r

  Step-order :
      {s t : System F}
      → Step d rand_max s t
      → s.pushed ≡ s.popped ++ s.queue
      → t.pushed ≡ t.popped ++ t.queue
  Step-order {s} (push_ok tick at room) e =
      ap (λ l. l ++ tick ∷ []) e ∙ append_assoc s.popped s.queue (tick ∷ [])
  Step-order {s} (pop_ok tick rest at front) e =
      e ∙ ap (λ l. s.popped ++ l) front ∙ sym (append_assoc s.popped (tick ∷ []) rest)
  Step-order _ e = e

  Reach-order :
      {has_sender : Bool} {s : System F}
      → Reach d rand_max has_sender s
      → s.pushed ≡ s.popped ++ s.queue
  Reach-order here = unfold start in refl
  Reach-order (later r st) = Step-order st (Reach-order r)

  -- In every reachable state every tick that was made was pushed or dropped at a refusal, or is
  -- still in the producer's hands; those pushed are, in order, those popped and then those in the
  -- queue, which is within its capacity; and the generated count, with what the monitor has taken
  -- of it, is the number of those pushed, up to the one just pushed, as `uint64_t`.
  pub ticks_accounted :
      {has_sender : Bool} {s : System F}
      → Reach d rand_max has_sender s
      → (s.made ≡ length s.pushed + s.dropped + in_hand s.producer)
        × (s.pushed ≡ s.popped ++ s.queue)
        × (length s.queue ≤ capacity)
        × Same64
            (s.reported_generated + s.ticks_generated + uncounted_push s.producer)
            (length s.pushed)
  ticks_accounted r = let inv = Reach-Inv r in (inv.makes, Reach-order r, inv.room, inv.pushes)

  -- In every reachable state with a sender, every tick popped went on the wire whole, was given up,
  -- was left unread at the end, or is under way; and the sent count, with what the monitor has
  -- taken of it, counts those on the wire and those given up, up to the one not yet counted, as
  -- `uint64_t`.
  pub messages_accounted :
      {s : System F}
      → Reach d rand_max true s
      → (length s.popped ≡ length s.wire + s.given_up + s.unread + unsettled s.consumer)
        × Same64
            (s.reported_sent + s.ticks_sent + uncounted_send s.consumer)
            (length s.wire + s.given_up)
  messages_accounted r =
      let inv = Reach-Inv r in let on = Reach-sender r in (inv.pops on, inv.sends on)
