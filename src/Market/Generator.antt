-- ===== src/Market/Generator.antt =====
-- include/market/price_generator.h: the interface of the price generators, with what every
-- generator of the program keeps: the prices that it gives out do not test as `<= 0`.
use fix_feed_simulator.Prelude.{◌≡◌, false, Bool-cases, inl, inr, if◌then◌else◌, List, [], ◌∷◌, All}
use fix_feed_simulator.Market.Double.{Double}

-- A value that is replaced where it tests as `<= 0` does not, if the other does not.
pub replaced_positive {ℓ} :
    {F : Type ℓ} (d : Double F) (x y : F)
    → d.le_zero y ≡ false
    → d.le_zero (if d.le_zero x then y else x) ≡ false
replaced_positive d x y h = elim (Bool-cases (d.le_zero x)) [
  | inl low ↦ rw low h
  | inr fine ↦ rw fine fine
]

-- `next` is `getNextPrice`, given the draw from the normal distribution.
pub record PriceGenerator {ℓ} {F : Type ℓ} (d : Double F) (State : Type ℓ) : Type (ℓ + 1) where
  pub next : F → State → F × State
  pub IsGood : State → Type 0
  pub next-IsGood : (z : F) (s : State) → IsGood s → IsGood (next z s).1
  pub next_positive : (z : F) (s : State) → IsGood s → d.le_zero (next z s).0 ≡ false

module _ {ℓ} {F : Type ℓ} {d : Double F} {State : Type ℓ} (g : PriceGenerator d State) where
  -- The prices of as many calls as there are draws.
  unfoldable pub prices : List F → State → List F
  prices [] s = []
  prices (z ∷ zs) s = let (price, s') = g.next z s in price ∷ prices zs s'

  -- Every price of a generator in a good state is positive, however the draws fall.
  pub prices_positive :
      (zs : List F) (s : State) → g.IsGood s → All (λ p. d.le_zero p ≡ false) (prices zs s)
  unfolding prices
  prices_positive [] s good = tt
  prices_positive (z ∷ zs) s good =
      (g.next_positive z s good, prices_positive zs (g.next z s).1 (g.next-IsGood z s good))
