-- ===== src/Market/RandomWalk.antt =====
-- include/market/random_walk_generator.h: `RandomWalkGenerator`.
use fix_feed_simulator.Prelude.{
  ◌≡◌, true, false, List, All, if◌then◌else◌, [], ◌∷◌, Bool-cases, inl, inr,
}
use fix_feed_simulator.Market.Double.{Double}
use fix_feed_simulator.Market.Generator.{PriceGenerator, replaced_positive, prices, prices_positive}

pub record Walk {ℓ} (F : Type ℓ) : Type ℓ where
  pub current_price : F
  pub step_size : F

module _ {ℓ} {F : Type ℓ} (d : Double F) where
  unfoldable pub create : F → F → Walk F
  create start_price step_size = record { current_price = start_price; step_size = d.abs step_size }

  unfoldable pub next : F → Walk F → F × Walk F
  next random_number w =
      let step = if d.gt_zero random_number then w.step_size else d.neg w.step_size in
      let moved = d.add w.current_price step in
      let price = if d.le_zero moved then w.step_size else moved in
      (price, record w { current_price = price })

  -- The step is what a price that falls to zero is set to, so it must be positive itself.
  abbrev pub IsGood : Walk F → Type 0
  IsGood w = d.le_zero w.step_size ≡ false

  pub next-IsGood : (z : F) (w : Walk F) → IsGood w → IsGood (next z w).1
  unfolding next
  next-IsGood z w good = good

  pub next_positive : (z : F) (w : Walk F) → IsGood w → d.le_zero (next z w).0 ≡ false
  unfolding next
  next_positive z w good = replaced_positive d _ w.step_size good

  abbrev pub walk_generator : PriceGenerator d (Walk F)
  walk_generator = record {
    next = next;
    IsGood = IsGood;
    next-IsGood = next-IsGood;
    next_positive = next_positive;
  }

  -- A random walk gives out no price that tests as zero or less, if its step without the sign does
  -- not: from any start, for any draws.
  pub walk_positive :
      (start_price step_size : F) (zs : List F)
      → d.le_zero (d.abs step_size) ≡ false
      → All (λ p. d.le_zero p ≡ false) (prices walk_generator zs (create start_price step_size))
  unfolding create
  walk_positive start_price step_size zs h = prices_positive walk_generator zs _ h

  -- The prices of a walk whose step tests as zero or less, from a price that does.
  stuck_prices :
      (w : Walk F) (zs : List F)
      → d.le_zero w.step_size ≡ true
      → ((x : F)
          → d.le_zero x ≡ true
          → (d.le_zero (d.add x w.step_size) ≡ true)
            × (d.le_zero (d.add x (d.neg w.step_size)) ≡ true))
      → d.le_zero w.current_price ≡ true
      → All (λ p. d.le_zero p ≡ true) (prices walk_generator zs w)
  unfolding prices next
  stuck_prices w [] low still at = tt
  stuck_prices w (z ∷ zs) low still at =
      let moved : d.le_zero
            (d.add w.current_price (if d.gt_zero z then w.step_size else d.neg w.step_size))
          ≡ true =
        elim (Bool-cases (d.gt_zero z)) [
          | inl up ↦ rw up (still w.current_price at).0
          | inr down ↦ rw down (still w.current_price at).1
        ] in
      let price : d.le_zero (next z w).0 ≡ true = rw moved low in
      (price, stuck_prices (next z w).1 zs low still price)

  -- The comment "stepSize_ is always positive" fails for a step that tests as zero or less without its
  -- sign: if moving by it takes no price from there to above zero, then all prices of a walk that
  -- starts at zero or less are zero or less, for any draws.
  pub walk_stuck :
      (start_price step_size : F) (zs : List F)
      → d.le_zero (d.abs step_size) ≡ true
      → ((x : F)
          → d.le_zero x ≡ true
          → (d.le_zero (d.add x (d.abs step_size)) ≡ true)
            × (d.le_zero (d.add x (d.neg (d.abs step_size))) ≡ true))
      → d.le_zero start_price ≡ true
      → All (λ p. d.le_zero p ≡ true) (prices walk_generator zs (create start_price step_size))
  unfolding create
  walk_stuck start_price step_size zs low still at = stuck_prices _ zs low still at
