-- ===== src/Market/NonBlocking/Wire.antt =====
-- What is on the wire of include/market/market_data_system_rw_nonblocking.h, as a receiver reads it.
use fix_feed_simulator.Prelude.{
  ◌≡◌, refl, ◌∙◌, subst, List, [], ◌∷◌, ◌++◌, Bool, true, false, All, All-append, if◌then◌else◌, ℕ,
}
use fix_feed_simulator.Prelude.Bytes.{Bytes, codes}
use fix_feed_simulator.Fix.Message.{soh, FixMessage}
use fix_feed_simulator.Fix.RoundTrip.{Lacks}
use fix_feed_simulator.Network.Sender.{partial}
use fix_feed_simulator.Market.Double.{Double}
use fix_feed_simulator.Market.Tick.{MarketTick}
use fix_feed_simulator.Market.Snapshot.{encode, encode-begin}
use fix_feed_simulator.Market.Wire.{
  Reads, Tells, make_tick-Proper, nothing, untold, Proper, Pending, after_send, encode-Reads,
}
use fix_feed_simulator.Market.NonBlocking.{
  Producer, Consumer, System, Step, produce, produce_end, push_ok, push_refused, push_again,
  push_abandon, count_generated, consume, consume_end, pop_refused, pop_ok, send_test, send_stopped,
  send_throws, send_returns, count_sent, watch, watch_end, wait_over, wait_stopped, take_generated,
  take_sent, stop, start, Reach, here, later,
}

module _ {ℓ} {F : Type ℓ} (d : Double F) where
  abbrev pub ProducerOk : Producer F → Type 0
  ProducerOk Producer.looping = Unit
  ProducerOk (Producer.pushing tick) = Proper tick
  ProducerOk (Producer.refused tick) = Proper tick
  ProducerOk Producer.counting = Unit
  ProducerOk Producer.finished = Unit

  abbrev pub ConsumerOk : Consumer → List (MarketTick F) → List Bytes → Type ℓ
  ConsumerOk (Consumer.retrying message) popped wire = Pending d popped wire message
  ConsumerOk (Consumer.sending message) popped wire = Pending d popped wire message
  ConsumerOk Consumer.looping popped wire = Tells d popped wire
  ConsumerOk Consumer.polling popped wire = Tells d popped wire
  ConsumerOk Consumer.counting popped wire = Tells d popped wire
  ConsumerOk Consumer.finished popped wire = Tells d popped wire

  -- Over the parts of the state that count for it.
  pub record Inv (builder : FixMessage) (queue : List (MarketTick F)) (producer : Producer F)
      (consumer : Consumer) (popped : List (MarketTick F)) (wire : List Bytes) : Type ℓ where
    pub begin : builder.begin_string ≡ codes "FIX.4.2"
    pub queue_ok : All Proper queue
    pub producer_ok : ProducerOk producer
    pub consumer_ok : ConsumerOk consumer popped wire

  abbrev pub InvOf : System F → Type ℓ
  InvOf s = Inv s.builder s.queue s.producer s.consumer s.popped s.wire

  after_pop :
      (has_sender : Bool) (popped : List (MarketTick F)) (wire : List Bytes) (message : Bytes)
      (tick : MarketTick F)
      → Tells d popped wire
      → Reads d message tick
      → ConsumerOk
          (if has_sender then Consumer.retrying message else Consumer.looping)
          (popped ++ tick ∷ [])
          wire
  after_pop true popped wire message tick before reads = (popped, tick, refl, before, reads)
  after_pop false popped wire message tick before reads = untold tick before

  -- The program point says what is known.
  consumer_at :
      (s : System F) (c : Consumer) → InvOf s → s.consumer ≡ c → ConsumerOk c s.popped s.wire
  consumer_at s c inv at = subst (λ c'. ConsumerOk c' s.popped s.wire) at inv.consumer_ok

  producer_at : (s : System F) (p : Producer F) → InvOf s → s.producer ≡ p → ProducerOk p
  producer_at s p inv at = subst ProducerOk at inv.producer_ok

  producer_moves :
      (s : System F) (p : Producer F)
      → InvOf s
      → ProducerOk p
      → Inv s.builder s.queue p s.consumer s.popped s.wire
  producer_moves s p inv ok = record {
    begin = inv.begin;
    queue_ok = inv.queue_ok;
    producer_ok = ok;
    consumer_ok = inv.consumer_ok;
  }

  consumer_moves :
      (s : System F) (c : Consumer) (wire : List Bytes)
      → InvOf s
      → ConsumerOk c s.popped wire
      → Inv s.builder s.queue s.producer c s.popped wire
  consumer_moves s c wire inv ok = record {
    begin = inv.begin;
    queue_ok = inv.queue_ok;
    producer_ok = inv.producer_ok;
    consumer_ok = ok;
  }

  module _ (format_clean : (x : F) → Lacks soh (d.format2 x)) where
    module _ (rand_max : ℕ) where
      pop-Inv :
          (s : System F) (tick : MarketTick F) (rest : List (MarketTick F))
          → s.consumer ≡ Consumer.polling
          → s.queue ≡ tick ∷ rest
          → InvOf s
          → InvOf (record s {
            queue = rest;
            popped = s.popped ++ tick ∷ [];
            builder = (encode d s.builder tick).0;
            consumer =
                if s.has_sender
                then Consumer.retrying (encode d s.builder tick).1
                else Consumer.looping;
          })
      pop-Inv s tick rest at front inv =
          let (named, others) = subst (All Proper) front inv.queue_ok in
          record {
            begin = encode-begin d s.builder tick ∙ inv.begin;
            queue_ok = others;
            producer_ok = inv.producer_ok;
            consumer_ok =
                after_pop s.has_sender s.popped s.wire (encode d s.builder tick).1 tick
                  (consumer_at s Consumer.polling inv at)
                  (encode-Reads d s.builder tick format_clean inv.begin named);
          }

      Step-Inv : {s t : System F} → Step d rand_max s t → InvOf s → InvOf t
      Step-Inv {s} (produce z rand₁ rand₂ at go) inv =
          producer_moves s _ inv (make_tick-Proper d _ rand_max rand₁ rand₂)
      Step-Inv {s} (produce_end at go) inv = producer_moves s _ inv tt
      Step-Inv {s} (push_ok tick at room) inv = record {
        begin = inv.begin;
        queue_ok = All-append Proper s.queue (tick ∷ []) inv.queue_ok (producer_at s _ inv at, tt);
        producer_ok = tt;
        consumer_ok = inv.consumer_ok;
      }
      Step-Inv {s} (push_refused tick at) inv = producer_moves s _ inv (producer_at s _ inv at)
      Step-Inv {s} (push_again tick at go) inv = producer_moves s _ inv (producer_at s _ inv at)
      Step-Inv {s} (push_abandon tick at go) inv = producer_moves s _ inv tt
      Step-Inv {s} (count_generated at) inv = producer_moves s _ inv tt
      Step-Inv {s} (consume at go) inv = consumer_moves s _ _ inv (consumer_at s _ inv at)
      Step-Inv {s} (consume_end at go) inv = consumer_moves s _ _ inv (consumer_at s _ inv at)
      Step-Inv {s} (pop_refused at) inv = consumer_moves s _ _ inv (consumer_at s _ inv at)
      Step-Inv {s} (pop_ok tick rest at front) inv = pop-Inv s tick rest at front inv
      Step-Inv {s} (send_test message at go) inv = consumer_moves s _ _ inv (consumer_at s _ inv at)
      Step-Inv {s} (send_stopped message at go) inv =
          consumer_moves s _ _ inv
            (after_send d partial s.popped s.wire message (consumer_at s _ inv at))
      Step-Inv {s} (send_throws message answer at e) inv =
          consumer_moves s _ _ inv (consumer_at s _ inv at)
      Step-Inv {s} (send_returns message answer outcome at e ne) inv =
          consumer_moves s _ _ inv
            (after_send d outcome s.popped s.wire message (consumer_at s _ inv at))
      Step-Inv {s} (count_sent at) inv = consumer_moves s _ _ inv (consumer_at s _ inv at)
      Step-Inv (watch at go) inv = inv
      Step-Inv (watch_end at go) inv = inv
      Step-Inv (wait_over at go) inv = inv
      Step-Inv (wait_stopped at go) inv = inv
      Step-Inv (take_generated at) inv = inv
      Step-Inv (take_sent at) inv = inv
      Step-Inv (stop go) inv = inv

      Reach-Inv : {has_sender : Bool} {s : System F} → Reach d rand_max has_sender s → InvOf s
      Reach-Inv here =
          unfold start in
          record { begin = refl; queue_ok = tt; producer_ok = tt; consumer_ok = nothing }
      Reach-Inv (later r st) = Step-Inv st (Reach-Inv r)

      told_so_far :
          (c : Consumer) (popped : List (MarketTick F)) (wire : List Bytes)
          → ConsumerOk c popped wire
          → Tells d popped wire
      told_so_far (Consumer.retrying message) popped wire ok =
          after_send d partial popped wire message ok
      told_so_far (Consumer.sending message) popped wire ok =
          after_send d partial popped wire message ok
      told_so_far Consumer.looping popped wire ok = ok
      told_so_far Consumer.polling popped wire ok = ok
      told_so_far Consumer.counting popped wire ok = ok
      told_so_far Consumer.finished popped wire ok = ok

      -- In every reachable state each message on the wire is the one that a builder makes of a tick
      -- that was popped, and is read by a receiver as its snapshot, no tick is told twice, and they
      -- are told in the order in which they were popped; if the text of a price has no separator.
      pub wire-Tells :
          {has_sender : Bool} {s : System F}
          → Reach d rand_max has_sender s
          → Tells d s.popped s.wire
      wire-Tells {s = s} r = told_so_far s.consumer s.popped s.wire ((Reach-Inv r).consumer_ok)
