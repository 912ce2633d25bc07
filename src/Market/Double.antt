-- ===== src/Market/Double.antt =====
-- What include/market/ does with a `double`. The numbers and their operations are left open, and so
-- is the text that `std::format` writes of one.
use fix_feed_simulator.Prelude.{ℕ, Bool}
use fix_feed_simulator.Prelude.Bytes.{Bytes}

pub record Double {ℓ} (F : Type ℓ) : Type ℓ where
  pub add : F → F → F
  pub sub : F → F → F
  pub mul : F → F → F
  pub div : F → F → F
  pub neg : F → F
  pub abs : F → F
  pub exp : F → F
  pub sqrt : F → F
  pub round : F → F
  pub of_int : ℕ → F  -- the conversion of an integer
  pub lit : ℕ → ℕ → F  -- `lit n k` is the literal n / 10 ^ k
  pub le_zero : F → Bool  -- `x <= 0`
  pub gt_zero : F → Bool  -- `x > 0.0`
  pub format2 : F → Bytes  -- `std::format("{:.2f}", x)`
