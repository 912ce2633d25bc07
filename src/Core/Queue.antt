-- ===== src/Core/Queue.antt =====
-- The abstract view of a ring buffer: a first-in first-out queue of at most `cap` items, oldest
-- first. An offer to a full queue is refused, and nothing can be taken from an empty one.
use fix_feed_simulator.Prelude.{
  ℕ, List, [], ◌∷◌, ◌++◌, Bool, true, false, Option, none, some, length, ltb, if◌then◌else◌,
}

-- What a client can ask for, and what it sees of the answer.
pub data Call {ℓ} (A : Type ℓ) : Type ℓ where
  put : A → Call A
  get : Call A

pub data Reply {ℓ} (A : Type ℓ) : Type ℓ where
  stored : Bool → Reply A
  taken : Option A → Reply A

module _ {ℓ} {A : Type ℓ} where
  unfoldable pub offer : ℕ → List A → A → Bool × List A
  offer cap q x = if ltb (length q) cap then (true, q ++ x ∷ []) else (false, q)

  unfoldable pub poll : List A → Option A × List A
  poll [] = (none, [])
  poll (x ∷ q) = (some x, q)

  unfoldable pub run : ℕ → List A → List (Call A) → List (Reply A)
  run cap q [] = []
  run cap q (put x ∷ calls) = let (b, q') = offer cap q x in stored b ∷ run cap q' calls
  run cap q (get ∷ calls) = let (o, q') = poll q in taken o ∷ run cap q' calls
