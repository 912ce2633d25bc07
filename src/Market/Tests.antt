-- ===== src/Market/Tests.antt =====
-- The generators and the messages of include/market/ at concrete inputs.
use fix_feed_simulator.Prelude.{length, ◌+◌, ◌≤◌, ◌≡◌, refl, arith, [], ◌∷◌, true, false, All}
use fix_feed_simulator.Prelude.Bytes.{codes, ℤ, pos, negsuc}
use fix_feed_simulator.Fix.Message.{FixMessage, create}
use fix_feed_simulator.Market.Cents.{cents}
use fix_feed_simulator.Market.Generator.{prices}
use fix_feed_simulator.Market.RandomWalk
use fix_feed_simulator.Market.RandomWalk.{Walk, walk_generator, walk_positive, walk_stuck}
use fix_feed_simulator.Market.BrownianMotion
use fix_feed_simulator.Market.BrownianMotion.{motion_generator, motion_positive}
use fix_feed_simulator.Market.Tick.{MarketTick}
use fix_feed_simulator.Market.Size.{text_length, length-encode_le}
use fix_feed_simulator.Market.Snapshot.{encode}
use fix_feed_simulator.Fix.Decimal.{decimal}

-- Three steps down from 2.00 by 1.00: the price that reaches zero is set to the step.
walk_down :
    prices
      (walk_generator cents)
      (negsuc 0 ∷ negsuc 0 ∷ negsuc 0 ∷ [])
      (RandomWalk.create cents (pos 200) (negsuc 99))
    ≡ pos 100 ∷ pos 100 ∷ pos 100 ∷ []
unfolding prices RandomWalk.next RandomWalk.create
walk_down = refl

walk_positive_example :
    All
      (λ p. cents.le_zero p ≡ false)
      (prices
        (walk_generator cents)
        (negsuc 0 ∷ pos 1 ∷ [])
        (RandomWalk.create cents (pos 200) (negsuc 99)))
walk_positive_example = walk_positive cents (pos 200) (negsuc 99) (negsuc 0 ∷ pos 1 ∷ []) refl

-- A step of zero moves no price.
still :
    (x : ℤ)
    → cents.le_zero x ≡ true
    → (cents.le_zero (cents.add x (cents.abs (pos 0))) ≡ true)
      × (cents.le_zero (cents.add x (cents.neg (cents.abs (pos 0)))) ≡ true)
still (pos n) low = (ground arith, ground arith)
still (negsuc n) low = (ground arith, ground arith)

motion_positive_example :
    (cents.le_zero (BrownianMotion.create cents (negsuc 5) (pos 10) (pos 20) (pos 1)).current_price
      ≡ false)
    × All
        (λ p. cents.le_zero p ≡ false)
        (prices
          (motion_generator cents (refl, refl))
          (negsuc 99999 ∷ pos 1 ∷ [])
          (BrownianMotion.create cents (negsuc 5) (pos 10) (pos 20) (pos 1)))
motion_positive_example =
    motion_positive cents (refl, refl) (negsuc 5) (pos 10) (pos 20) (pos 1)
      (negsuc 99999 ∷ pos 1 ∷ [])

abbrev tick : MarketTick ℤ
tick = record {
  symbol = codes "ESZ5";
  bid = pos 9995;
  ask = pos 10005;
  bid_size = 77;
  ask_size = 77;
}

abbrev builder : FixMessage
builder = create (codes "FIX.4.2")

-- Prices printed as 99.95 and 100.05.
length-encode_le_example :
    length (encode cents builder tick).1 ≤ length builder.begin_string + text_length cents tick + 73
unfolding decimal
length-encode_le_example =
    length-encode_le cents builder tick (omega arith) (omega arith) (omega arith)
