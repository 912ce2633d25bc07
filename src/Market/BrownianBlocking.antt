-- ===== src/Market/BrownianBlocking.antt =====
-- include/market/market_data_system_gbm.h: `MarketDataSystemGBM`. Its threads and `stop` are those of
-- Market.Blocking, with another generator, whose price is pulled towards 100.0; while the producer
-- sleeps after a tick, it stands before the test of its loop.
use fix_feed_simulator.Prelude.{ℕ, Bool}
use fix_feed_simulator.Market.Double.{Double}
use fix_feed_simulator.Market.BrownianMotion.{Motion}
use fix_feed_simulator.Market.BrownianMotion
use fix_feed_simulator.Market.Tick.{revert}
use fix_feed_simulator.Market.Blocking.{Source}
use fix_feed_simulator.Market.Blocking

module _ {ℓ} {F : Type ℓ} (d : Double F) where
  abbrev pub brownian_motion : Source F (Motion F)
  brownian_motion = record {
    first = BrownianMotion.create d (d.lit 1000 1) (d.lit 1 1) (d.lit 3 1) (d.lit 1 3);
    mid_price = λ z m. let (price, m') = BrownianMotion.next d z m in (revert d price, m');
  }

  abbrev pub System : Type ℓ
  System = Blocking.System F (Motion F)

  abbrev pub Step : ℕ → System → System → Type ℓ
  Step rand_max = Blocking.Step d rand_max brownian_motion

  abbrev pub start : ℕ → Bool → System
  start rand_max = Blocking.start d rand_max brownian_motion

  abbrev pub Reach : ℕ → Bool → System → Type ℓ
  Reach rand_max = Blocking.Reach d rand_max brownian_motion
