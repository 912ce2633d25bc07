-- ===== src/Market/NonBlocking/OverRing.antt =====
-- include/market/market_data_system_rw_nonblocking.h with the ring of
-- include/core/nonblocking_ring_buffer.h itself, as a client of Core.LockFree.Spsc.Client.
mod Tests
use fix_feed_simulator.Prelude.{
  ℕ, ◌≡◌, refl, sym, ◌∙◌, arith, List, [], ◌∷◌, ◌++◌, Bool, length, if◌then◌else◌,
}
use fix_feed_simulator.Core.LockFree.{IsCapacity}
use fix_feed_simulator.Core.LockFree.Spsc.Client.{RingClient, RingLaws, Whole, Joined}
use fix_feed_simulator.Core.LockFree.Spsc.ClientRefines.{client_refines}
use fix_feed_simulator.Market.Double.{Double}
use fix_feed_simulator.Market.Tick.{MarketTick}
use fix_feed_simulator.Market.Snapshot.{encode}
use fix_feed_simulator.Market.NonBlocking.{
  capacity, Producer, Consumer, System, Step, produce, produce_end, push_again, push_abandon,
  count_generated, push_ok, push_refused, pop_ok, pop_refused, consume, consume_end, send_test,
  send_stopped, send_throws, send_returns, count_sent, watch, watch_end, wait_over, wait_stopped,
  take_generated, take_sent, stop, start, Reach, here, later,
}

module _ {ℓ} {F : Type ℓ} (d : Double F) (rand_max : ℕ) where
  -- Not a step of `push` or `pop`.
  abbrev pub IsAway : {s t : System F} → Step d rand_max s t → Type 0
  IsAway (push_ok tick at room) = ⊥
  IsAway (push_refused tick at) = ⊥
  IsAway (pop_ok tick rest at front) = ⊥
  IsAway (pop_refused at) = ⊥
  IsAway _ = Unit

  -- The field `queue` is not looked at.
  abbrev pub waits_for_room : RingClient (MarketTick F) (System F)
  waits_for_room = record {
    Away = λ s t. (st : Step d rand_max s t) × IsAway st;
    Pushing = λ tick s. s.producer ≡ Producer.pushing tick;
    Polling = λ s. (s.consumer ≡ Consumer.polling) × Unit {ℓ};
    push_no = λ tick s. record s { producer = Producer.refused tick };
    push_yes = λ tick s. record s { pushed = s.pushed ++ tick ∷ []; producer = Producer.counting };
    pop_no = λ s. record s { consumer = Consumer.looping };
    pop_yes = λ tick s. record s {
      popped = s.popped ++ tick ∷ [];
      builder = (encode d s.builder tick).0;
      consumer =
          if s.has_sender then Consumer.retrying (encode d s.builder tick).1 else Consumer.looping;
    };
  }

  abbrev pub with_queue : List (MarketTick F) → System F → System F
  with_queue q s = record s { queue = q }

  -- A step away from the ring is the same step with any queue, and leaves the producer at its call.
  away-Step :
      {s t : System F} (q : List (MarketTick F)) (st : Step d rand_max s t)
      → IsAway st
      → Step d rand_max (with_queue q s) (with_queue q t)
  away-Step q (produce z rand₁ rand₂ at go) a = produce z rand₁ rand₂ at go
  away-Step q (produce_end at go) a = produce_end at go
  away-Step q (push_again tick at go) a = push_again tick at go
  away-Step q (push_abandon tick at go) a = push_abandon tick at go
  away-Step q (count_generated at) a = count_generated at
  away-Step q (push_ok tick at room) a = absurd a
  away-Step q (push_refused tick at) a = absurd a
  away-Step q (pop_ok tick rest at front) a = absurd a
  away-Step q (pop_refused at) a = absurd a
  away-Step q (consume at go) a = consume at go
  away-Step q (consume_end at go) a = consume_end at go
  away-Step q (send_test message at go) a = send_test message at go
  away-Step q (send_stopped message at go) a = send_stopped message at go
  away-Step q (send_throws message answer at e) a = send_throws message answer at e
  away-Step q (send_returns message answer outcome at e ne) a =
      send_returns message answer outcome at e ne
  away-Step q (count_sent at) a = count_sent at
  away-Step q (watch at go) a = watch at go
  away-Step q (watch_end at go) a = watch_end at go
  away-Step q (wait_over at go) a = wait_over at go
  away-Step q (wait_stopped at go) a = wait_stopped at go
  away-Step q (take_generated at) a = take_generated at
  away-Step q (take_sent at) a = take_sent at
  away-Step q (stop go) a = stop go

  away_keeps_call :
      {s t : System F} (tick : MarketTick F) (st : Step d rand_max s t)
      → IsAway st
      → s.producer ≡ Producer.pushing tick
      → t.producer ≡ Producer.pushing tick
  away_keeps_call tick (produce z rand₁ rand₂ at go) a h = absurd (let both = sym at ∙ h in cc)
  away_keeps_call tick (produce_end at go) a h = absurd (let both = sym at ∙ h in cc)
  away_keeps_call tick (push_again other at go) a h = absurd (let both = sym at ∙ h in cc)
  away_keeps_call tick (push_abandon other at go) a h = absurd (let both = sym at ∙ h in cc)
  away_keeps_call tick (count_generated at) a h = absurd (let both = sym at ∙ h in cc)
  away_keeps_call tick (push_ok other at room) a h = absurd a
  away_keeps_call tick (push_refused other at) a h = absurd a
  away_keeps_call tick (pop_ok other rest at front) a h = absurd a
  away_keeps_call tick (pop_refused at) a h = absurd a
  away_keeps_call tick (consume at go) a h = h
  away_keeps_call tick (consume_end at go) a h = h
  away_keeps_call tick (send_test message at go) a h = h
  away_keeps_call tick (send_stopped message at go) a h = h
  away_keeps_call tick (send_throws message answer at e) a h = h
  away_keeps_call tick (send_returns message answer outcome at e ne) a h = h
  away_keeps_call tick (count_sent at) a h = h
  away_keeps_call tick (watch at go) a h = h
  away_keeps_call tick (watch_end at go) a h = h
  away_keeps_call tick (wait_over at go) a h = h
  away_keeps_call tick (wait_stopped at go) a h = h
  away_keeps_call tick (take_generated at) a h = h
  away_keeps_call tick (take_sent at) a h = h
  away_keeps_call tick (stop go) a h = h

  -- Over a queue, which holds `q`, the system comes to this state.
  abbrev pub OverQueue : Bool → List (MarketTick F) → System F → Type ℓ
  OverQueue has_sender q s = Reach d rand_max has_sender (with_queue q s)

  queue_laws : (has_sender : Bool) → RingLaws waits_for_room capacity (OverQueue has_sender)
  queue_laws has_sender = record {
    one_item = λ at at'. (let both = sym at ∙ at' in cc);
    stays = λ (st, out) at. away_keeps_call _ st out at;
    pop_no_stays = λ polling at. at;
    pop_yes_stays = λ y polling at. at;
    good_away = λ (st, out) reach. later reach (away-Step _ st out);
    good_push_no = λ at reach. later reach (push_refused _ at);
    good_push_yes = λ at room reach. later reach (push_ok _ at room);
    good_pop_no = λ polling reach. later reach (pop_refused polling.0);
    good_pop_yes = λ polling reach. later reach (pop_ok _ _ polling.0 refl);
  }

  is_capacity : IsCapacity capacity
  is_capacity = (12, omega arith, refl)

  -- The system over the lock-free ring itself, with every access to shared memory a step of its own
  -- and counters loaded however old, comes to no state to which the system over a queue does not
  -- come: with the items sent and not received as its queue, that reaches the same state, program
  -- points, counters, wire and history alike; if the array has as many elements as the ring's
  -- capacity, 4096.
  pub ring_refines :
      (storage : List (MarketTick F)) (has_sender : Bool) {s : Whole (MarketTick F) (System F)}
      → length storage ≡ capacity
      → Joined capacity waits_for_room storage (start d rand_max has_sender) s
      → (q : List (MarketTick F)) × (s.ring.sent ≡ s.ring.received ++ q)
        × OverQueue has_sender q s.system
  unfolding start
  ring_refines storage has_sender whole joined =
      client_refines capacity is_capacity waits_for_room (OverQueue has_sender)
        (queue_laws has_sender) storage whole here joined
