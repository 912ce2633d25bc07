-- ===== src/Programs/Laws.antt =====
-- What the programs of src/ rely on in the systems of include/market/ that they own.
use fix_feed_simulator.Prelude.{ℕ, ◌<◌, ◌≡◌, ◌⊎◌, true, false}
use fix_feed_simulator.Programs.Script.{Engine}

pub record Laws {ℓ} {S : Type ℓ} (e : Engine S) : Type (ℓ + 1) where
  pub Good : S → Type ℓ
  pub Stuck : S → Type ℓ  -- where neither the threads nor `stop` may be able to go on
  pub left : S → ℕ  -- how many steps are left, at most, once the flag of the system is down
  pub first : S
  pub first-First : e.First first
  pub first-Good : (s : S) → e.First s → Good s
  pub first-running : (s : S) → e.First s → e.running s ≡ true
  pub thread-Good : (s t : S) → e.ThreadStep s t → Good s → Good t
  pub thread-running : (s t : S) → e.ThreadStep s t → e.running t ≡ e.running s
  pub thread-Returned : (s t : S) → e.ThreadStep s t → e.Returned s → e.Returned t
  pub thread_down : (s t : S) → e.ThreadStep s t → e.running s ≡ false → left t < left s
  pub thread-Joined : (s t : S) → e.ThreadStep s t → e.Joined s → e.Joined t
  pub stop-Good : (s t : S) → e.StopStep s t → Good s → Good t
  pub stop-running : (s t : S) → e.StopStep s t → Good s → e.running t ≡ false
  pub stop_down : (s t : S) → e.StopStep s t → e.running s ≡ false → left t < left s
  pub Returned-running : (s : S) → Good s → e.Returned s → e.running s ≡ false
  -- Once `stop` has returned, a thread can step until all have returned.
  pub can_thread :
      (s : S) → Good s → e.Returned s → e.Joined s ⊎ ((t : S) × e.ThreadStep s t) ⊎ Stuck s
  -- A call of `stop` returns, or it or a thread can step.
  pub can_stop :
      (s : S)
      → Good s
      → e.Returned s ⊎ ((t : S) × e.StopStep s t) ⊎ ((t : S) × e.ThreadStep s t) ⊎ Stuck s
