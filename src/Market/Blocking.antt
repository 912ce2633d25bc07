-- ===== src/Market/Blocking.antt =====
-- include/market/market_data_system_rw.h: `MarketDataSystemRW`, its three threads and `stop`, as
-- steps in any order. Its `monitorThread` is that of Market.NonBlocking. Where the prices come from
-- is a parameter, which Market.BrownianBlocking fills in another way.
-- The queue is the one of Core.Queue, which the blocking ring refines until it is stopped; and this
-- system never stops its ring, so a push into a full queue and a pop from an empty one just wait.
pub mod Hang
pub mod Invariant
pub mod Counting
pub mod Sending
pub mod Shutdown
pub mod Threads
pub mod Wire
pub mod Span
mod Tests
use fix_feed_simulator.Prelude.{
  ℕ, ◌+◌, ◌%◌, ◌^◌, ◌<◌, ◌≡◌, ◌≢◌, List, [], ◌∷◌, ◌++◌, Bool, true, false, length, if◌then◌else◌,
}
use fix_feed_simulator.Prelude.Bytes.{Bytes, codes}
use fix_feed_simulator.Fix.Message.{FixMessage, create}
use fix_feed_simulator.Network.Sender.{SendAnswer, SendOutcome, throws, send}
use fix_feed_simulator.Market.Double.{Double}
use fix_feed_simulator.Market.RandomWalk.{Walk}
use fix_feed_simulator.Market.RandomWalk
use fix_feed_simulator.Market.Tick.{MarketTick, make_tick}
use fix_feed_simulator.Market.Snapshot.{encode}
use fix_feed_simulator.Market.NonBlocking.{Monitor, next_count, wired, given}

abbrev pub capacity : ℕ
capacity = 4096

-- `producerThread`: at the test of the loop, in `push`, before the counter, returned.
pub data Producer {ℓ} (F : Type ℓ) : Type ℓ where
  looping counting finished : Producer F
  pushing : (tick : MarketTick F) → Producer F

-- `consumerThread`: at the test of the loop, in `pop`, at the test after it, at the test of the
-- sending loop, before `send`, before the counter, returned.
pub data Consumer {ℓ} (F : Type ℓ) : Type ℓ where
  looping polling counting finished : Consumer F
  checking : (tick : MarketTick F) → Consumer F
  retrying sending : (message : Bytes) → Consumer F

-- `stop`: not called; flag down, about to push the dummy tick; returned.
pub data Stopper : Type 0 where
  idle pushing returned : Stopper

-- The generator that the constructor makes, and the middle price of a turn of the producer's loop.
pub record Source {ℓ} (F W : Type ℓ) : Type ℓ where
  pub first : W
  pub mid_price : F → W → F × W

abbrev pub random_walk {ℓ} : {F : Type ℓ} → Double F → Source F (Walk F)
random_walk d = record {
  first = RandomWalk.create d (d.lit 1000 1) (d.lit 1 2);
  mid_price = RandomWalk.next d;
}

-- The members of the object and where the threads stand. The last seven fields are history: the
-- ticks pushed and popped, the messages that the kernel took whole, how many were given up, how many
-- ticks were popped only to leave the loop, and the sums of the counts that the monitor has taken.
pub record System {ℓ} (F W : Type ℓ) : Type ℓ where
  pub running : Bool
  pub generator : W
  pub queue : List (MarketTick F)
  pub builder : FixMessage
  pub has_sender : Bool
  pub ticks_generated : ℕ
  pub ticks_sent : ℕ
  pub producer : Producer F
  pub consumer : Consumer F
  pub monitor : Monitor
  pub stopper : Stopper
  pub pushed : List (MarketTick F)
  pub popped : List (MarketTick F)
  pub wire : List Bytes
  pub given_up : ℕ
  pub unread : ℕ
  pub reported_generated : ℕ
  pub reported_sent : ℕ

module _ {ℓ} {F W : Type ℓ} (d : Double F) (rand_max : ℕ) (source : Source F W) where
  pub data Step (s : System F W) : System F W → Type ℓ where
    -- the producer
    produce :
        (z : F) (rand₁ rand₂ : ℕ)
        → s.producer ≡ Producer.looping
        → s.running ≡ true
        → Step s (record s {
          generator = (source.mid_price z s.generator).1;
          producer =
              Producer.pushing
                (make_tick d (source.mid_price z s.generator).0 rand_max rand₁ rand₂);
        })
    produce_end :
        s.producer ≡ Producer.looping
        → s.running ≡ false
        → Step s (record s { producer = Producer.finished })
    push :
        (tick : MarketTick F)
        → s.producer ≡ Producer.pushing tick
        → length s.queue < capacity
        → Step s (record s {
          queue = s.queue ++ tick ∷ [];
          pushed = s.pushed ++ tick ∷ [];
          producer = Producer.counting;
        })
    count_generated :
        s.producer ≡ Producer.counting
        → Step s (record s {
          ticks_generated = next_count s.ticks_generated;
          producer = Producer.looping;
        })
    -- the consumer
    consume :
        s.consumer ≡ Consumer.looping
        → s.running ≡ true
        → Step s (record s { consumer = Consumer.polling })
    consume_end :
        s.consumer ≡ Consumer.looping
        → s.running ≡ false
        → Step s (record s { consumer = Consumer.finished })
    pop :
        (tick : MarketTick F) (rest : List (MarketTick F))
        → s.consumer ≡ Consumer.polling
        → s.queue ≡ tick ∷ rest
        → Step s (record s {
          queue = rest;
          popped = s.popped ++ tick ∷ [];
          consumer = Consumer.checking tick;
        })
    check_stopped :
        (tick : MarketTick F)
        → s.consumer ≡ Consumer.checking tick
        → s.running ≡ false
        → Step s (record s { unread = s.unread + 1; consumer = Consumer.finished })
    check_running :
        (tick : MarketTick F)
        → s.consumer ≡ Consumer.checking tick
        → s.running ≡ true
        → Step s (record s {
          builder = (encode d s.builder tick).0;
          consumer =
              if s.has_sender
              then Consumer.retrying (encode d s.builder tick).1
              else Consumer.looping;
        })
    send_test :
        (message : Bytes)
        → s.consumer ≡ Consumer.retrying message
        → s.running ≡ true
        → Step s (record s { consumer = Consumer.sending message })
    send_stopped :
        (message : Bytes)
        → s.consumer ≡ Consumer.retrying message
        → s.running ≡ false
        → Step s (record s { consumer = Consumer.counting; given_up = s.given_up + 1 })
    send_throws :
        (message : Bytes) (answer : SendAnswer)
        → s.consumer ≡ Consumer.sending message
        → send message answer ≡ throws
        → Step s (record s { consumer = Consumer.retrying message })
    send_returns :
        (message : Bytes) (answer : SendAnswer) (outcome : SendOutcome)
        → s.consumer ≡ Consumer.sending message
        → send message answer ≡ outcome
        → outcome ≢ throws
        → Step s (record s {
          consumer = Consumer.counting;
          wire = wired outcome message s.wire;
          given_up = given outcome s.given_up;
        })
    count_sent :
        s.consumer ≡ Consumer.counting
        → Step s (record s { ticks_sent = next_count s.ticks_sent; consumer = Consumer.looping })
    -- the monitor
    watch :
        s.monitor ≡ Monitor.looping
        → s.running ≡ true
        → Step s (record s { monitor = Monitor.waiting })
    watch_end :
        s.monitor ≡ Monitor.looping
        → s.running ≡ false
        → Step s (record s { monitor = Monitor.finished })
    wait_over :
        s.monitor ≡ Monitor.waiting
        → s.running ≡ true
        → Step s (record s { monitor = Monitor.taking_generated })
    wait_stopped :
        s.monitor ≡ Monitor.waiting
        → s.running ≡ false
        → Step s (record s { monitor = Monitor.finished })
    take_generated :
        s.monitor ≡ Monitor.taking_generated
        → Step s (record s {
          ticks_generated = 0;
          reported_generated = s.reported_generated + s.ticks_generated;
          monitor = Monitor.taking_sent;
        })
    take_sent :
        s.monitor ≡ Monitor.taking_sent
        → Step s (record s {
          ticks_sent = 0;
          reported_sent = s.reported_sent + s.ticks_sent;
          monitor = Monitor.looping;
        })
    -- the thread that calls `stop`, once
    stop_flag :
        s.stopper ≡ Stopper.idle → Step s (record s { running = false; stopper = Stopper.pushing })
    stop_push :
        (dummy : MarketTick F)
        → s.stopper ≡ Stopper.pushing
        → length s.queue < capacity
        → Step s (record s {
          queue = s.queue ++ dummy ∷ [];
          pushed = s.pushed ++ dummy ∷ [];
          stopper = Stopper.returned;
        })

  -- After the constructor and `start`.
  pub start : Bool → System F W
  start has_sender = record {
    running = true;
    generator = source.first;
    queue = [];
    builder = create (codes "FIX.4.2");
    has_sender = has_sender;
    ticks_generated = 0;
    ticks_sent = 0;
    producer = Producer.looping;
    consumer = Consumer.looping;
    monitor = Monitor.looping;
    stopper = Stopper.idle;
    pushed = [];
    popped = [];
    wire = [];
    given_up = 0;
    unread = 0;
    reported_generated = 0;
    reported_sent = 0;
  }

  pub data Reach (has_sender : Bool) : System F W → Type ℓ where
    here : Reach has_sender (start has_sender)
    later : {s t : System F W} → Reach has_sender s → Step s t → Reach has_sender t
