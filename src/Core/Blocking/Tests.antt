-- ===== src/Core/Blocking/Tests.antt =====
-- The blocking ring at concrete inputs: two slots, full and empty, stopped and not.
use fix_feed_simulator.Prelude.{
  ℕ, ◌^◌, ◌-◌, ◌+◌, ◌≡◌, refl, arith, List, [], ◌∷◌, true, false, none, some, get_elem?, get_or,
}
use fix_feed_simulator.Core.Blocking.{Ring, stop, push, pop, size, load_factor}
use fix_feed_simulator.Core.Blocking.Refine.{Represents}
use fix_feed_simulator.Core.Blocking.Stopped.{push-stopped_full, pop-stopped_empty}

-- 7 is the oldest, in the last slot.
abbrev full : Ring ℕ
full = record { buffer = 8 ∷ 7 ∷ []; write_index = 1; read_index = 1; count = 2; stopped = false }

abbrev empty : Ring ℕ
empty = record { buffer = 8 ∷ 7 ∷ []; write_index = 1; read_index = 1; count = 0; stopped = false }

abbrev held : List ℕ
held = 7 ∷ 8 ∷ []

full-Represents : Represents 2 full held
full-Represents = (omega arith, (refl, (refl, tt)))

empty-Represents : Represents 2 empty []
empty-Represents = (omega arith, tt)

push_waits_when_full : push 2 full 9 ≡ none
unfolding push
push_waits_when_full = refl

pop_full : pop 2 full 0 ≡ some (true, 7, record full { read_index = 0; count = 1 })
unfolding pop
pop_full = refl

load_factor_full : load_factor (λ n. n) (λ a b. a + b) 2 full ≡ 4
unfolding load_factor
load_factor_full = refl

push-stopped_full_example :
    (r : Ring ℕ) × (push 2 (stop full) 9 ≡ some (true, r))
    × (size r ≡ 2 + 1)
    × (get_elem? r.buffer r.read_index ≡ some 9)
    × ((q : List ℕ) → ¬ Represents 2 r q)
push-stopped_full_example = push-stopped_full 2 full held 9 full-Represents refl

pop-stopped_empty_example :
    (r : Ring ℕ) × (pop 2 (stop empty) 0 ≡ some (true, get_or empty.buffer 1 0, r))
    × (size r ≡ 2 ^ 64 - 1)
    × ((q : List ℕ) → ¬ Represents 2 r q)
pop-stopped_empty_example = pop-stopped_empty 2 empty 0 empty-Represents
