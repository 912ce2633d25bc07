-- ===== src/Core/Blocking/Refine.antt =====
-- Until it is stopped, the blocking ring is the bounded queue of `Core.Queue`, and waits exactly
-- where that refuses.
use native.Mathlib.Nat.{mod-lt, mod-eq_of_lt, mod-mod, suc-mod, mod-add-mod}
use fix_feed_simulator.Prelude.{
  ℕ, suc, ◌+◌, ◌%◌, ◌≤◌, ◌<◌, ◌≡◌, refl, sym, ap, ◌∙◌, arith, List, [], ◌∷◌, ◌++◌, Bool, true,
  false, Option, none, some, length, length-append, length-set, get_or, get_or_of_get_elem?, set,
  ltb, ltb→lt, ltb→le, Bool-cases, inl, inr,
}
use fix_feed_simulator.Prelude.Words.{size_mod, add_size, sub_size}
use fix_feed_simulator.Core.Queue.{offer, poll}
use fix_feed_simulator.Core.Slots.{Holds, Holds-mod, Holds-push}
use fix_feed_simulator.Core.Blocking.{Ring, init, push, pop, may_push, may_pop}

-- `push` fits: a ring that holds `n` items, oldest at `read_index`.
pub record IsAt {ℓ} {A : Type ℓ} (cap n : ℕ) (r : Ring A) : Type 0 where
  pub reads : r.read_index < cap
  pub writes : r.write_index ≡ (r.read_index + n) % cap
  pub counts : r.count ≡ n
  pub fits : n ≤ cap
  pub storage : cap ≤ length r.buffer
  pub small : cap + 1 < size_mod

-- The ring stands for the queue `q`.
abbrev pub Represents {ℓ} : {A : Type ℓ} → ℕ → Ring A → List A → Type ℓ
Represents cap r q = IsAt cap (length q) r × Holds r.buffer cap r.read_index q

-- One step round the ring does not wrap as a `size_t`.
next-index : (cap i : ℕ) → i < cap → cap + 1 < size_mod → add_size i 1 % cap ≡ suc i % cap
next-index cap i h small = ap (λ t. t % cap) (omega arith)

module _ {ℓ} {A : Type ℓ} (cap : ℕ) where
  pub init-Represents :
      (storage : List A)
      → length storage ≡ cap
      → 0 < cap
      → cap + 1 < size_mod
      → Represents cap (init storage) []
  init-Represents storage e pos small = (
    record {
      reads = pos;
      writes = rw (mod-eq_of_lt pos);
      counts = refl;
      fits = omega arith;
      storage = omega arith;
      small = small;
    },
    tt,
  )

  -- `push` on a ring with room takes the item, behind all the others, and says so.
  pub push-room :
      (r : Ring A) (q : List A) (x : A)
      → Represents cap r q
      → length q < cap
      → (r' : Ring A) × (push cap r x ≡ some (true, r')) × Represents cap r' (q ++ x ∷ [])
  unfolding push
  push-room r q x (at, held) room =
      let n = length q in
      let i = r.write_index in
      let below : i < cap = omega (arith, at.writes, mod-lt (r.read_index + n) {m = cap}) in
      let may : may_push cap r ≡ true = ground arith in
      let next : add_size i 1 % cap ≡ (r.read_index + suc n) % cap =
        next-index cap i below at.small
        ∙ ap (λ t. suc t % cap) at.writes
        ∙ sym (suc-mod (r.read_index + n) cap)
        ∙ ap (λ t. t % cap) (omega arith) in
      let longer : length (q ++ x ∷ []) ≡ suc n = omega (arith, length-append q (x ∷ [])) in
      rw may (
        record r {
          buffer = set r.buffer i x;
          write_index = add_size i 1 % cap;
          count = add_size r.count 1;
        },
        refl,
        (
          rw longer (record {
            reads = at.reads;
            writes = next;
            counts = omega (arith, at.counts, at.small);
            fits = omega arith;
            storage = omega (arith, at.storage, length-set r.buffer i x);
            small = at.small;
          }),
          rw at.writes (Holds-push r.buffer cap r.read_index x q at.storage room held),
        ),
      )

  -- `push` on a full ring waits, unless the ring is stopped.
  pub push-full :
      (r : Ring A) (q : List A) (x : A)
      → Represents cap r q
      → length q ≡ cap
      → r.stopped ≡ false
      → push cap r x ≡ none
  unfolding push
  push-full r q x (at, held) full going = ground arith

  pub pop-empty :
      (r : Ring A) (value : A) → Represents cap r [] → r.stopped ≡ false → pop cap r value ≡ none
  unfolding pop
  pop-empty r value (at, held) going = ground arith

  pub pop-first :
      (r : Ring A) (x : A) (q : List A) (value : A)
      → Represents cap r (x ∷ q)
      → (r' : Ring A) × (pop cap r value ≡ some (true, x, r')) × Represents cap r' q
  unfolding pop
  pop-first r x q value (at, (here, rest)) =
      let h = r.read_index in
      let may : may_pop r ≡ true = ground arith in
      let next : add_size h 1 % cap ≡ suc h % cap = next-index cap h at.reads at.small in
      let own : h % cap ≡ h = mod-eq_of_lt at.reads in
      let item : get_or r.buffer h value ≡ x =
        ap (λ i. get_or r.buffer i value) (sym own)
        ∙ get_or_of_get_elem? r.buffer (h % cap) value here in
      rw (may, item)
        (
          record r { read_index = add_size h 1 % cap; count = sub_size r.count 1 },
          refl,
          (
            record {
              reads = rw next (mod-lt (suc h) (omega (arith, at.reads)));
              writes =
                  at.writes
                  ∙ ap (λ t. t % cap) (omega arith)
                  ∙ sym (mod-add-mod (suc h) cap (length q))
                  ∙ ap (λ t. (t + length q) % cap) (sym next);
              counts = omega (arith, at.counts, at.fits, at.small);
              fits = omega (arith, at.fits);
              storage = at.storage;
              small = at.small;
            },
            Holds-mod r.buffer cap (suc h) (add_size h 1 % cap) q
                (sym (mod-mod (suc h) cap) ∙ ap (λ t. t % cap) (sym next)) rest,
          ),
        )

  -- What `push` should do, given the queue's answer: wait if it is refused, else say yes and leave
  -- a ring for the longer queue.
  abbrev pub PushFits : Bool × List A → Option (Bool × Ring A) → Type ℓ
  PushFits (false, q') outcome = (outcome ≡ none) × Unit {ℓ}
  PushFits (true, q') outcome = (r' : Ring A) × (outcome ≡ some (true, r')) × Represents cap r' q'

  abbrev pub PopFits : Option A × List A → Option (Bool × A × Ring A) → Type ℓ
  PopFits (none, q') outcome = (outcome ≡ none) × Unit {ℓ}
  PopFits (some x, q') outcome =
      (r' : Ring A) × (outcome ≡ some (true, x, r')) × Represents cap r' q'

  -- On a ring that stands for a queue and is not stopped, `push` does what the bounded queue does,
  -- and waits exactly where that refuses an item.
  pub blocking_push_refines :
      (r : Ring A) (q : List A) (x : A)
      → Represents cap r q
      → r.stopped ≡ false
      → PushFits (offer cap q x) (push cap r x)
  unfolding offer
  blocking_push_refines r q x rep going = elim (Bool-cases (ltb (length q) cap)) [
    | inl room ↦ rw room (push-room r q x rep (ltb→lt _ _ room))
    | inr full ↦
        rw full (push-full r q x rep (omega (arith, rep.0.fits, ltb→le _ _ full)) going, tt)
  ]

  -- On a ring that stands for a queue and is not stopped, `pop` takes the oldest item, and waits
  -- exactly where there is none.
  pub blocking_pop_refines :
      (r : Ring A) (q : List A) (value : A)
      → Represents cap r q
      → r.stopped ≡ false
      → PopFits (poll q) (pop cap r value)
  unfolding poll
  blocking_pop_refines r [] value rep going = (pop-empty r value rep going, tt)
  blocking_pop_refines r (x ∷ q) value rep going = pop-first r x q value rep
