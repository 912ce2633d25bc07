-- ===== src/Market/Tick.antt =====
-- `MarketTick` and how a price becomes one, in include/market/market_data_system_rw.h and
-- include/market/market_data_system_gbm.h and their nonblocking kin.
use fix_feed_simulator.Prelude.{ℕ, ◌+◌, ◌%◌}
use fix_feed_simulator.Prelude.Bytes.{Bytes, codes}
use fix_feed_simulator.Market.Double.{Double}

-- The sizes are `int`; those that the program computes are not negative.
pub record MarketTick {ℓ} (F : Type ℓ) : Type ℓ where
  pub symbol : Bytes
  pub bid : F
  pub ask : F
  pub bid_size : ℕ
  pub ask_size : ℕ

module _ {ℓ} {F : Type ℓ} (d : Double F) where
  -- The spread is drawn first, then the volume: two calls of `std::rand()`.
  unfoldable pub spread : ℕ → ℕ → F
  spread rand_max rand =
      let drawn =
        d.add (d.lit 5 2) (d.mul (d.lit 1 2) (d.div (d.of_int rand) (d.of_int rand_max))) in
      d.div (d.round (d.mul drawn (d.lit 1000 1))) (d.lit 1000 1)

  unfoldable pub make_tick : F → ℕ → ℕ → ℕ → MarketTick F
  make_tick mid_price rand_max rand₁ rand₂ =
      let half = d.div (spread rand_max rand₁) (d.lit 20 1) in
      let volume = rand₂ % 100 + 50 in
      record {
        symbol = codes "ESZ5";
        bid = d.sub mid_price half;
        ask = d.add mid_price half;
        bid_size = volume;
        ask_size = volume;
      }

  -- The pull of the Brownian price towards 100.0.
  unfoldable pub revert : F → F
  revert mid_price =
      let deviation = d.sub (d.lit 1000 1) mid_price in
      d.add mid_price (d.mul deviation (d.lit 5 5))
