-- ===== src/Core/Blocking/Stopped.antt =====
-- include/core/blocking_ring_buffer.h after `stop`: the waits return at once, and `push` and `pop` go
-- on without looking why.
use native.Mathlib.Nat.{add-mod_right, mod-eq_of_lt}
use fix_feed_simulator.Prelude.{
  ℕ, ◌+◌, ◌-◌, ◌%◌, ◌^◌, ◌≡◌, ◌≢◌, ap, ◌∙◌, arith, List, [], true, none, some, length, get_elem?,
  get_or, get_elem?-set_self, set,
}
use fix_feed_simulator.Prelude.Words.{add_size, sub_size}
use fix_feed_simulator.Core.Blocking.{Ring, stop, push, pop, size}
use fix_feed_simulator.Core.Blocking.Refine.{Represents}

module _ {ℓ} {A : Type ℓ} (cap : ℕ) where
  -- After `stop` no call of `push` or `pop` waits, whatever the ring holds.
  pub stop_releases :
      (r : Ring A) (x value : A) → (push cap (stop r) x ≢ none) × (pop cap (stop r) value ≢ none)
  unfolding stop push pop
  stop_releases r x value = ground arith

  -- After `stop`, `push` into a ring that stands for a full queue says yes, counts one item more
  -- than there are slots, and has put the new item where the oldest stood, so that item is lost;
  -- the ring stands for no queue.
  pub push-stopped_full :
      (r : Ring A) (q : List A) (x : A)
      → Represents cap r q
      → length q ≡ cap
      → (r' : Ring A) × (push cap (stop r) x ≡ some (true, r'))
        × (size r' ≡ cap + 1)
        × (get_elem? r'.buffer r'.read_index ≡ some x)
        × ((q' : List A) → ¬ Represents cap r' q')
  unfolding stop push size
  push-stopped_full r q x (at, held) full =
      let i = r.write_index in
      let oldest : i ≡ r.read_index =
        at.writes
        ∙ ap (λ n. (r.read_index + n) % cap) full
        ∙ add-mod_right r.read_index cap
        ∙ mod-eq_of_lt at.reads in
      let over : add_size r.count 1 ≡ cap + 1 = omega (arith, at.counts, at.small, full) in
      (
        record r {
          buffer = set r.buffer i x;
          write_index = add_size i 1 % cap;
          count = add_size r.count 1;
          stopped = true;
        },
        ground arith,
        over,
        rw oldest
            (get_elem?-set_self r.buffer r.read_index x (omega (arith, at.reads, at.storage))),
        λ q' (bad, _). omega (arith, bad.counts, bad.fits, over),
      )

  -- After `stop`, `pop` from a ring that stands for the empty queue says yes, hands over whatever
  -- the slot holds, and leaves a count of 2 ^ 64 - 1; the ring stands for no queue.
  pub pop-stopped_empty :
      (r : Ring A) (value : A)
      → Represents cap r []
      → (r' : Ring A) × (pop cap (stop r) value
          ≡ some (true, get_or r.buffer r.read_index value, r'))
        × (size r' ≡ 2 ^ 64 - 1)
        × ((q' : List A) → ¬ Represents cap r' q')
  unfolding stop pop size
  pop-stopped_empty r value (at, held) =
      let under : sub_size r.count 1 ≡ 2 ^ 64 - 1 = omega (arith, at.counts) in
      (
        record r {
          read_index = add_size r.read_index 1 % cap;
          count = sub_size r.count 1;
          stopped = true;
        },
        ground arith,
        under,
        λ q' (bad, _). omega (arith, bad.counts, bad.fits, bad.small, under),
      )
