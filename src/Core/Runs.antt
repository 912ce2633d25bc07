-- ===== src/Core/Runs.antt =====
-- Runs of a step relation, and why those end in which every step uses something up; for the threads of
-- include/market/.
use fix_feed_simulator.Prelude.{ℕ, suc, ◌+◌, ◌≤◌, ◌<◌, arith}

-- `n` steps, one after the other.
pub data Run {ℓ κ} {S : Type ℓ} (Step : S → S → Type κ) (s : S) : ℕ → S → Type (ℓ ⊔ κ) where
  none_yet : Run Step s 0 s
  and_then : {n : ℕ} {t u : S} → Run Step s n t → Step t u → Run Step s (suc n) u

module _ {ℓ κ μ} {S : Type ℓ} (Step : S → S → Type κ) (left : S → ℕ) (Good : S → Type μ)
    (down : (s t : S) → Step s t → Good s → Good t × (left t < left s)) where
  -- A run from a good state stays in good states, and is no longer than what it uses up.
  pub run_down : {s t : S} {n : ℕ} → Run Step s n t → Good s → Good t × (n + left t ≤ left s)
  run_down none_yet good = (good, omega arith)
  run_down (and_then r st) good =
      let (here, used) = run_down r good in
      let (next, less) = down _ _ st here in (next, omega (arith, used, less))
