-- ===== src/Market/BrownianMotion.antt =====
-- include/market/geometric_brownian_motion_generator.h: `GBMGenerator`.
use fix_feed_simulator.Prelude.{◌≡◌, false, List, All, if◌then◌else◌}
use fix_feed_simulator.Market.Double.{Double}
use fix_feed_simulator.Market.Generator.{PriceGenerator, replaced_positive, prices, prices_positive}

pub record Motion {ℓ} (F : Type ℓ) : Type ℓ where
  pub current_price : F
  pub mu : F
  pub sigma : F
  pub dt : F

module _ {ℓ} {F : Type ℓ} (d : Double F) where
  unfoldable pub create : F → F → F → F → Motion F
  create start_price mu sigma dt_s = record {
    current_price = if d.le_zero start_price then d.lit 10 1 else start_price;
    mu = mu;
    sigma = sigma;
    dt = dt_s;
  }

  -- (mu - 0.5 * sigma * sigma) * dt + sigma * sqrt(dt) * Z
  pub log_return : Motion F → F → F
  log_return m z =
      let sqrt_dt = d.sqrt m.dt in
      d.add (d.mul (d.sub m.mu (d.mul (d.mul (d.lit 5 1) m.sigma) m.sigma)) m.dt)
        (d.mul (d.mul m.sigma sqrt_dt) z)

  unfoldable pub next : F → Motion F → F × Motion F
  unfolding log_return
  next z m =
      let moved = d.mul m.current_price (d.exp (log_return m z)) in
      let price = if d.le_zero moved then d.lit 1 2 else moved in
      (price, record m { current_price = price })

  -- The constants 1.0 and 0.01 that a price is set to are positive.
  abbrev pub PositiveConstants : Type 0
  PositiveConstants = (d.le_zero (d.lit 10 1) ≡ false) × (d.le_zero (d.lit 1 2) ≡ false)

  pub next_positive :
      PositiveConstants
      → (z : F) (m : Motion F) → d.le_zero m.current_price ≡ false
      → (d.le_zero (next z m).0 ≡ false)
  unfolding next
  next_positive consts z m good = replaced_positive d _ (d.lit 1 2) consts.1

  pub next-IsGood :
      PositiveConstants
      → (z : F) (m : Motion F) → d.le_zero m.current_price ≡ false
      → (d.le_zero (next z m).1.current_price ≡ false)
  unfolding next
  next-IsGood consts z m good = replaced_positive d _ (d.lit 1 2) consts.1

  abbrev pub motion_generator : PositiveConstants → PriceGenerator d (Motion F)
  motion_generator consts = record {
    next = next;
    IsGood = λ m. d.le_zero m.current_price ≡ false;
    next-IsGood = next-IsGood consts;
    next_positive = next_positive consts;
  }

  -- If the constants 1.0 and 0.01 do not test as zero or less, no price given out does, nor the
  -- price kept at first: whatever start price, drift, volatility, time step and draws are.
  pub motion_positive :
      (consts : PositiveConstants) (start_price mu sigma dt_s : F) (zs : List F)
      → (d.le_zero (create start_price mu sigma dt_s).current_price ≡ false)
        × All
            (λ p. d.le_zero p ≡ false)
            (prices (motion_generator consts) zs (create start_price mu sigma dt_s))
  unfolding create
  motion_positive consts start_price mu sigma dt_s zs =
      let good = replaced_positive d start_price (d.lit 10 1) consts.0 in
      (good, prices_positive (motion_generator consts) zs _ good)
