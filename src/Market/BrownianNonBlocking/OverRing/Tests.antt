-- ===== src/Market/BrownianNonBlocking/OverRing/Tests.antt =====
-- The Brownian system over the ring itself, with the concrete arithmetic: a tick is made, put into the
-- ring, taken from it and sent.
use fix_feed_simulator.Prelude.{
  ◌≡◌, ◌≢◌, refl, arith, List, [], ◌++◌, true, replicate, length-replicate,
}
use fix_feed_simulator.Prelude.Bytes.{ℤ, pos}
use fix_feed_simulator.Network.Sender.{sent, complete, throws}
use fix_feed_simulator.Network.Sender.Sending.{send_lem}
use fix_feed_simulator.Core.LockFree.Spsc as Spsc
use fix_feed_simulator.Market.Cents.{cents}
use fix_feed_simulator.Market.Tick.{MarketTick}
use fix_feed_simulator.Market.BrownianNonBlocking.{
  capacity, produce, count_generated, consume, check_running, send_test, send_returns, start,
  System,
}
use fix_feed_simulator.Core.LockFree.Spsc.Client.{
  Whole, away, push_begins, push_goes_on, push_publishes, pop_goes_on, pop_publishes, Joined, here,
  later,
}
use fix_feed_simulator.Market.BrownianNonBlocking.OverRing.{
  drops_when_full, OverQueue, brownian_ring_refines,
}

abbrev blank : MarketTick ℤ
blank = record { symbol = []; bid = pos 0; ask = pos 0; bid_size = 0; ask_size = 0 }

abbrev storage : List (MarketTick ℤ)
storage = replicate capacity blank

complete_ne_throws : complete ≢ throws
complete_ne_throws e = cc

record Run : Type 0 where
  last : Whole (MarketTick ℤ) (System ℤ)
  joined : Joined capacity (drops_when_full cents 32767) storage (start cents 32767 true) last

taken : Run
unfolding start
taken = record {
  last = _;
  joined =
      later
        (later
          (later
            (later
              (later
                (later
                  (later
                    (later
                      (later
                        (later
                          (later
                            (later
                              (later (later here (away (produce (pos 1) 0 27 refl refl, tt)))
                                (push_begins _ refl refl))
                              (push_goes_on _
                                (Spsc.push_load_other _ _ 0 refl (omega arith) (omega arith)) refl
                                tt))
                            (push_goes_on _ (Spsc.push_write _ _ _ refl refl) refl tt))
                          (push_publishes _ _ _ refl refl))
                        (away (consume refl refl, tt)))
                      (pop_goes_on (Spsc.pop_load_own refl) refl tt))
                    (pop_goes_on (Spsc.pop_load_other _ 1 refl (omega arith) (omega arith)) refl
                      tt))
                  (pop_goes_on (Spsc.pop_copy blank _ _ refl refl) refl tt))
                (pop_publishes _ _ refl refl))
              (away (check_running _ refl refl, tt)))
            (away (send_test _ refl refl, tt)))
          (away (
            send_returns _ (sent _) complete refl ((send_lem _ (sent _)).1.1 refl)
                complete_ne_throws,
            tt,
          )))
        (away (count_generated refl, tt));
}

brownian_ring_refines_example :
    let s = taken.last in
    (q : List (MarketTick ℤ)) × (s.ring.sent ≡ s.ring.received ++ q)
    × OverQueue cents 32767 true q s.system
brownian_ring_refines_example =
    brownian_ring_refines cents 32767 storage true (length-replicate capacity blank) taken.joined
