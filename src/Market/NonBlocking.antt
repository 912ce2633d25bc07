-- ===== src/Market/NonBlocking.antt =====
-- include/market/market_data_system_rw_nonblocking.h: `MarketDataSystemRWNonBlocking`, its three
-- threads and `stop`, as steps in any order.
-- The queue is the one of Core.Queue, which the lock-free ring refines. A refusal by `push` or `pop`
-- is left possible at any time, since a thread may not yet have seen what the other has done.
-- OverRing has the ring itself.
pub mod Counting
pub mod Shutdown
pub mod Threads
pub mod Wire
pub mod Span
pub mod OverRing
mod Tests
use fix_feed_simulator.Prelude.{
  ℕ, ◌+◌, ◌%◌, ◌^◌, ◌<◌, ◌≡◌, ◌≢◌, List, [], ◌∷◌, ◌++◌, Bool, true, false, length, if◌then◌else◌,
}
use fix_feed_simulator.Prelude.Bytes.{Bytes, codes}
use fix_feed_simulator.Fix.Message.{FixMessage, create}
use fix_feed_simulator.Network.Sender.{
  SendAnswer, SendOutcome, complete, partial, hard_error, throws, send,
}
use fix_feed_simulator.Market.Double.{Double}
use fix_feed_simulator.Market.RandomWalk.{Walk}
use fix_feed_simulator.Market.RandomWalk
use fix_feed_simulator.Market.Tick.{MarketTick, make_tick}
use fix_feed_simulator.Market.Snapshot.{encode}

abbrev pub capacity : ℕ
capacity = 4096

-- `producerThread`: at the test of the loop, before a push, after a refused push, before the
-- counter, returned.
pub data Producer {ℓ} (F : Type ℓ) : Type ℓ where
  looping : Producer F
  pushing : (tick : MarketTick F) → Producer F
  refused : (tick : MarketTick F) → Producer F
  counting : Producer F
  finished : Producer F

-- `consumerThread`: at the test of the loop, before a pop, at the test of the sending loop, before
-- `send`, before the counter, returned.
pub data Consumer : Type 0 where
  looping polling counting finished : Consumer
  retrying sending : (message : Bytes) → Consumer

-- `monitorThread`: at the test of the loop, waiting for a second or for `stop`, before each of the
-- two exchanges, returned.
pub data Monitor : Type 0 where
  looping waiting taking_generated taking_sent finished : Monitor

-- The members of the object and where the threads stand. The last five fields are history: the
-- ticks pushed and popped, the messages that the kernel took whole, how many messages were given
-- up, and the sums of the counts that the monitor has taken.
pub record System {ℓ} (F : Type ℓ) : Type ℓ where
  pub running : Bool
  pub walk : Walk F
  pub queue : List (MarketTick F)
  pub builder : FixMessage
  pub has_sender : Bool
  pub ticks_generated : ℕ
  pub ticks_sent : ℕ
  pub producer : Producer F
  pub consumer : Consumer
  pub monitor : Monitor
  pub pushed : List (MarketTick F)
  pub popped : List (MarketTick F)
  pub wire : List Bytes
  pub given_up : ℕ
  pub reported_generated : ℕ
  pub reported_sent : ℕ

-- `fetch_add(1)` of a `uint64_t`
abbrev pub next_count : ℕ → ℕ
next_count n = (n + 1) % 2 ^ 64

-- After `send` has returned: what is on the wire, and what is not.
abbrev pub wired : SendOutcome → Bytes → List Bytes → List Bytes
wired complete message wire = wire ++ message ∷ []
wired _ message wire = wire

abbrev pub given : SendOutcome → ℕ → ℕ
given complete n = n
given _ n = n + 1

module _ {ℓ} {F : Type ℓ} (d : Double F) (rand_max : ℕ) where
  pub data Step (s : System F) : System F → Type ℓ where
    -- the producer
    produce :
        (z : F) (rand₁ rand₂ : ℕ)
        → s.producer ≡ Producer.looping
        → s.running ≡ true
        → Step s (record s {
          walk = (RandomWalk.next d z s.walk).1;
          producer =
              Producer.pushing (make_tick d (RandomWalk.next d z s.walk).0 rand_max rand₁ rand₂);
        })
    produce_end :
        s.producer ≡ Producer.looping
        → s.running ≡ false
        → Step s (record s { producer = Producer.finished })
    push_ok :
        (tick : MarketTick F)
        → s.producer ≡ Producer.pushing tick
        → length s.queue < capacity
        → Step s (record s {
          queue = s.queue ++ tick ∷ [];
          pushed = s.pushed ++ tick ∷ [];
          producer = Producer.counting;
        })
    push_refused :
        (tick : MarketTick F)
        → s.producer ≡ Producer.pushing tick
        → Step s (record s { producer = Producer.refused tick })
    push_again :
        (tick : MarketTick F)
        → s.producer ≡ Producer.refused tick
        → s.running ≡ true
        → Step s (record s { producer = Producer.pushing tick })
    push_abandon :
        (tick : MarketTick F)
        → s.producer ≡ Producer.refused tick
        → s.running ≡ false
        → Step s (record s { producer = Producer.finished })
    count_generated :
        s.producer ≡ Producer.counting
        → Step s (record s {
          ticks_generated = next_count s.ticks_generated;
          producer = Producer.looping;
        })
    -- the consumer
    consume :
        s.consumer ≡ Consumer.looping
        → s.running ≡ true
        → Step s (record s { consumer = Consumer.polling })
    consume_end :
        s.consumer ≡ Consumer.looping
        → s.running ≡ false
        → Step s (record s { consumer = Consumer.finished })
    pop_refused : s.consumer ≡ Consumer.polling → Step s (record s { consumer = Consumer.looping })
    pop_ok :
        (tick : MarketTick F) (rest : List (MarketTick F))
        → s.consumer ≡ Consumer.polling
        → s.queue ≡ tick ∷ rest
        → Step s (record s {
          queue = rest;
          popped = s.popped ++ tick ∷ [];
          builder = (encode d s.builder tick).0;
          consumer =
              if s.has_sender
              then Consumer.retrying (encode d s.builder tick).1
              else Consumer.looping;
        })
    send_test :
        (message : Bytes)
        → s.consumer ≡ Consumer.retrying message
        → s.running ≡ true
        → Step s (record s { consumer = Consumer.sending message })
    send_stopped :
        (message : Bytes)
        → s.consumer ≡ Consumer.retrying message
        → s.running ≡ false
        → Step s (record s { consumer = Consumer.counting; given_up = s.given_up + 1 })
    send_throws :
        (message : Bytes) (answer : SendAnswer)
        → s.consumer ≡ Consumer.sending message
        → send message answer ≡ throws
        → Step s (record s { consumer = Consumer.retrying message })
    send_returns :
        (message : Bytes) (answer : SendAnswer) (outcome : SendOutcome)
        → s.consumer ≡ Consumer.sending message
        → send message answer ≡ outcome
        → outcome ≢ throws
        → Step s (record s {
          consumer = Consumer.counting;
          wire = wired outcome message s.wire;
          given_up = given outcome s.given_up;
        })
    count_sent :
        s.consumer ≡ Consumer.counting
        → Step s (record s { ticks_sent = next_count s.ticks_sent; consumer = Consumer.looping })
    -- the monitor
    watch :
        s.monitor ≡ Monitor.looping
        → s.running ≡ true
        → Step s (record s { monitor = Monitor.waiting })
    watch_end :
        s.monitor ≡ Monitor.looping
        → s.running ≡ false
        → Step s (record s { monitor = Monitor.finished })
    wait_over :
        s.monitor ≡ Monitor.waiting
        → s.running ≡ true
        → Step s (record s { monitor = Monitor.taking_generated })
    wait_stopped :
        s.monitor ≡ Monitor.waiting
        → s.running ≡ false
        → Step s (record s { monitor = Monitor.finished })
    take_generated :
        s.monitor ≡ Monitor.taking_generated
        → Step s (record s {
          ticks_generated = 0;
          reported_generated = s.reported_generated + s.ticks_generated;
          monitor = Monitor.taking_sent;
        })
    take_sent :
        s.monitor ≡ Monitor.taking_sent
        → Step s (record s {
          ticks_sent = 0;
          reported_sent = s.reported_sent + s.ticks_sent;
          monitor = Monitor.looping;
        })
    -- the thread that calls `stop`
    stop : s.running ≡ true → Step s (record s { running = false })

  -- After the constructor and `start`.
  unfoldable pub start : Bool → System F
  start has_sender = record {
    running = true;
    walk = RandomWalk.create d (d.lit 1000 1) (d.lit 1 2);
    queue = [];
    builder = create (codes "FIX.4.2");
    has_sender = has_sender;
    ticks_generated = 0;
    ticks_sent = 0;
    producer = Producer.looping;
    consumer = Consumer.looping;
    monitor = Monitor.looping;
    pushed = [];
    popped = [];
    wire = [];
    given_up = 0;
    reported_generated = 0;
    reported_sent = 0;
  }

  pub data Reach (has_sender : Bool) : System F → Type ℓ where
    here : Reach has_sender (start has_sender)
    later : {s t : System F} → Reach has_sender s → Step s t → Reach has_sender t
