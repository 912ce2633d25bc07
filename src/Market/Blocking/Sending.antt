-- ===== src/Market/Blocking/Sending.antt =====
-- What holds of ticks and messages wherever the threads of include/market/market_data_system_rw.h
-- stand, over the parts of the state that count for it; for market_data_system_gbm_nonblocking.h too.
use fix_feed_simulator.Prelude.{
  ◌≡◌, refl, ◌∙◌, sym, subst, List, [], ◌∷◌, ◌++◌, Bool, true, false, All, All-append,
  if◌then◌else◌,
}
use fix_feed_simulator.Prelude.Bytes.{Bytes, codes}
use fix_feed_simulator.Fix.Message.{FixMessage, soh}
use fix_feed_simulator.Fix.RoundTrip.{Lacks}
use fix_feed_simulator.Network.Sender.{partial}
use fix_feed_simulator.Market.Double.{Double}
use fix_feed_simulator.Market.Tick.{MarketTick}
use fix_feed_simulator.Market.Wire.{Tells, untold, Proper, Pending, after_send, encode-Reads}
use fix_feed_simulator.Market.Snapshot.{encode, encode-begin}
use fix_feed_simulator.Market.Blocking.{Producer, Consumer}

module _ {ℓ} {F : Type ℓ} (d : Double F) where
  abbrev pub ProducerOk : Producer F → Type 0
  ProducerOk (Producer.pushing tick) = Proper tick
  ProducerOk Producer.looping = Unit
  ProducerOk Producer.counting = Unit
  ProducerOk Producer.finished = Unit

  -- A tick under test is the last one taken; only while the flag is up is it known to be no dummy.
  abbrev pub ConsumerOk : Bool → Consumer F → List (MarketTick F) → List Bytes → Type ℓ
  ConsumerOk running (Consumer.retrying message) popped wire = Pending d popped wire message
  ConsumerOk running (Consumer.sending message) popped wire = Pending d popped wire message
  ConsumerOk running (Consumer.checking tick) popped wire =
      (running ≡ true → Proper tick)
      × ((before : List (MarketTick F)) × (popped ≡ before ++ tick ∷ []) × Tells d before wire)
  ConsumerOk running Consumer.looping popped wire = Tells d popped wire
  ConsumerOk running Consumer.polling popped wire = Tells d popped wire
  ConsumerOk running Consumer.counting popped wire = Tells d popped wire
  ConsumerOk running Consumer.finished popped wire = Tells d popped wire

  pub record Sound (running : Bool) (builder : FixMessage) (queue : List (MarketTick F))
      (producer : Producer F) (consumer : Consumer F) (popped : List (MarketTick F))
      (wire : List Bytes) : Type ℓ where
    pub begin : builder.begin_string ≡ codes "FIX.4.2"
    pub queue_ok : running ≡ true → All Proper queue
    pub producer_ok : ProducerOk producer
    pub consumer_ok : ConsumerOk running consumer popped wire

  flag_falls_at :
      (running : Bool) (popped : List (MarketTick F)) (wire : List Bytes) (c : Consumer F)
      → ConsumerOk running c popped wire
      → ConsumerOk false c popped wire
  flag_falls_at running popped wire (Consumer.retrying message) ok = ok
  flag_falls_at running popped wire (Consumer.sending message) ok = ok
  flag_falls_at running popped wire (Consumer.checking tick) ok = ((λ raised. cc), ok.1)
  flag_falls_at running popped wire Consumer.looping ok = ok
  flag_falls_at running popped wire Consumer.polling ok = ok
  flag_falls_at running popped wire Consumer.counting ok = ok
  flag_falls_at running popped wire Consumer.finished ok = ok

  read_at :
      (running has_sender : Bool) (popped : List (MarketTick F)) (wire : List Bytes)
      (message : Bytes)
      → Pending d popped wire message
      → ConsumerOk running
          (if has_sender then Consumer.retrying message else Consumer.looping)
          popped
          wire
  read_at running true popped wire message ok = ok
  read_at running false popped wire message ok = after_send d partial popped wire message ok

  told_at :
      (running : Bool) (popped : List (MarketTick F)) (wire : List Bytes) (c : Consumer F)
      → ConsumerOk running c popped wire
      → Tells d popped wire
  told_at running popped wire (Consumer.retrying message) ok =
      after_send d partial popped wire message ok
  told_at running popped wire (Consumer.sending message) ok =
      after_send d partial popped wire message ok
  told_at running popped wire (Consumer.checking tick) (named, (before, e, told_before)) =
      subst (λ p. Tells d p wire) (sym e) (untold tick told_before)
  told_at running popped wire Consumer.looping ok = ok
  told_at running popped wire Consumer.polling ok = ok
  told_at running popped wire Consumer.counting ok = ok
  told_at running popped wire Consumer.finished ok = ok

  module _ {running : Bool} {builder : FixMessage} {queue : List (MarketTick F)}
      {producer : Producer F} {consumer : Consumer F} {popped : List (MarketTick F)}
      {wire : List Bytes} where
    pub producer_at :
        Sound running builder queue producer consumer popped wire
        → (p : Producer F) → producer ≡ p
        → ProducerOk p
    producer_at s p at = subst ProducerOk at s.producer_ok

    pub consumer_at :
        Sound running builder queue producer consumer popped wire
        → (c : Consumer F) → consumer ≡ c
        → ConsumerOk running c popped wire
    consumer_at s c at = subst (λ c'. ConsumerOk running c' popped wire) at s.consumer_ok

    pub producer_moves :
        Sound running builder queue producer consumer popped wire
        → (p : Producer F) → ProducerOk p
        → Sound running builder queue p consumer popped wire
    producer_moves s p ok = record {
      begin = s.begin;
      queue_ok = s.queue_ok;
      producer_ok = ok;
      consumer_ok = s.consumer_ok;
    }

    pub consumer_moves :
        Sound running builder queue producer consumer popped wire
        → (c : Consumer F) (wire' : List Bytes) → ConsumerOk running c popped wire'
        → Sound running builder queue producer c popped wire'
    consumer_moves s c wire' ok = record {
      begin = s.begin;
      queue_ok = s.queue_ok;
      producer_ok = s.producer_ok;
      consumer_ok = ok;
    }

    -- A tick goes into the queue: one that was made, or any one once the flag is down.
    pub queue_grows :
        Sound running builder queue producer consumer popped wire
        → (tick : MarketTick F) (p : Producer F) → (running ≡ true → Proper tick)
        → ProducerOk p
        → Sound running builder (queue ++ tick ∷ []) p consumer popped wire
    queue_grows s tick p named ok = record {
      begin = s.begin;
      queue_ok =
          λ raised. All-append Proper queue (tick ∷ []) (s.queue_ok raised) (named raised, tt);
      producer_ok = ok;
      consumer_ok = s.consumer_ok;
    }

    -- A tick is taken, to be looked at after the test of the flag.
    pub tick_taken :
        (tick : MarketTick F) (rest : List (MarketTick F))
        → Sound running builder queue producer consumer popped wire
        → consumer ≡ Consumer.polling
        → queue ≡ tick ∷ rest
        → Sound running builder rest producer (Consumer.checking tick) (popped ++ tick ∷ []) wire
    tick_taken tick rest s at front =
        let named = λ (raised : running ≡ true). subst (All Proper) front (s.queue_ok raised) in
        record {
          begin = s.begin;
          queue_ok = λ raised. (named raised).1;
          producer_ok = s.producer_ok;
          consumer_ok =
              ((λ raised. (named raised).0), (popped, refl, consumer_at s Consumer.polling at));
        }

    -- Its message is made, with the flag up when it was tested.
    pub tick_read :
        ((x : F) → Lacks soh (d.format2 x))
        → (has_sender : Bool) (tick : MarketTick F)
        → Sound running builder queue producer consumer popped wire
        → consumer ≡ Consumer.checking tick
        → running ≡ true
        → Sound running
            (encode d builder tick).0
            queue
            producer
            (if has_sender then Consumer.retrying (encode d builder tick).1 else Consumer.looping)
            popped
            wire
    tick_read format_clean has_sender tick s at on =
        let (named, (before, e, told_before)) = consumer_at s (Consumer.checking tick) at in
        record {
          begin = encode-begin d builder tick ∙ s.begin;
          queue_ok = s.queue_ok;
          producer_ok = s.producer_ok;
          consumer_ok = read_at running has_sender popped wire (encode d builder tick).1 (
            before,
            tick,
            e,
            told_before,
            encode-Reads d builder tick format_clean s.begin (named on),
          );
        }

    -- A tick is popped and nothing is sent of it.
    pub tick_unread :
        (tick : MarketTick F)
        → Sound running builder queue producer consumer popped wire
        → consumer ≡ Consumer.checking tick
        → Tells d popped wire
    tick_unread tick s at =
        let (named, (before, e, told_before)) = consumer_at s (Consumer.checking tick) at in
        subst (λ p. Tells d p wire) (sym e) (untold tick told_before)

    -- Wherever the consumer stands, what is on the wire tells of ticks that were popped.
    pub told_so_far :
        Sound running builder queue producer consumer popped wire → Tells d popped wire
    told_so_far s = told_at running popped wire consumer s.consumer_ok

    pub flag_falls :
        Sound running builder queue producer consumer popped wire
        → Sound false builder queue producer consumer popped wire
    flag_falls s = record {
      begin = s.begin;
      queue_ok = λ raised. cc;
      producer_ok = s.producer_ok;
      consumer_ok = flag_falls_at running popped wire consumer s.consumer_ok;
    }
