-- ===== src/Core/LockFree/Refine.antt =====
-- A lock-free ring used by one thread at a time is the bounded queue of `Core.Queue`.
use native.Mathlib.Nat.{pow-le-pow_right, one-le-pow}
use fix_feed_simulator.Prelude.{
  Bool-cases, ltb→lt, ltb→le, inl, inr, ap₂, ℕ, suc, ◌+◌, ◌%◌, ◌^◌, ◌≤◌, ◌<◌, ◌≡◌, refl, ap, ◌∙◌,
  List, [], ◌∷◌, ◌++◌, Bool, true, false, Option, none, some, length, ◌==◌, length-append,
  length-set, get_or, get_or_of_get_elem?, arith, ltb, if◌then◌else◌,
}
use fix_feed_simulator.Prelude.Words.{size_mod, add_size, sub_size, bit_and-mask, size_mod-mod}
use fix_feed_simulator.Core.Slots.{Holds, Holds-push}
use fix_feed_simulator.Core.Queue.{Call, put, get, Reply, stored, taken, offer, poll}
use fix_feed_simulator.Core.Queue
use fix_feed_simulator.Core.LockFree.{Ring, IsCapacity, slot, init, push, pop, size}

-- The counters of a ring that has given out `h` items and holds `n`.
pub record IsAt {ℓ} {A : Type ℓ} (cap h n : ℕ) (r : Ring A) : Type 0 where
  pub reads : r.read_index ≡ h % size_mod
  pub writes : r.write_index ≡ (h + n) % size_mod
  pub fits : n ≤ cap
  pub storage : cap ≤ length r.buffer

-- The ring stands for the queue `q`, after `h` items have been taken.
abbrev pub Represents {ℓ} : {A : Type ℓ} → ℕ → Ring A → ℕ → List A → Type ℓ
Represents cap r h q = IsAt cap h (length q) r × Holds r.buffer cap h q

-- The capacity leaves room in a `size_t` for one more than itself.
pub capacity_bounds : (cap : ℕ) → IsCapacity cap → (1 ≤ cap) × (cap ≤ 2 ^ 63)
capacity_bounds cap (k, small, e) = (
  rw e (one-le-pow k 2 (omega arith)),
  rw e (pow-le-pow_right {n = 2} (omega arith) {i = k} {j = 63} (omega arith)),
)

-- The mask picks the slot of the position that a counter stands for, wrapped or not.
pub slot-eq-mod : (cap i : ℕ) → IsCapacity cap → slot cap (i % size_mod) ≡ i % cap
slot-eq-mod cap i (k, small, e) =
    rw e (bit_and-mask k (i % size_mod) ∙ size_mod-mod k i (omega arith))

module _ {ℓ} {A : Type ℓ} (cap : ℕ) (is_cap : IsCapacity cap) where
  -- `size()` of a ring that stands for a queue, and that nobody changes between its loads, is the
  -- queue's length, also when the counters have wrapped, if the capacity is a power of two.
  pub size_lem : (r : Ring A) (h : ℕ) (q : List A) → Represents cap r h q → size r r ≡ length q
  unfolding size
  size_lem r h q (at, _) = let bounds = capacity_bounds cap is_cap in ground arith

  -- `push` on a full ring says no and changes nothing.
  pub push-full :
      (r : Ring A) (h : ℕ) (q : List A) (x : A)
      → Represents cap r h q
      → length q ≡ cap
      → push cap r x ≡ (false, r)
  unfolding push
  push-full r h q x (at, _) full = let bounds = capacity_bounds cap is_cap in ground arith

  -- `push` on a ring with room takes the item, behind all the others.
  pub push-room :
      (r : Ring A) (h : ℕ) (q : List A) (x : A)
      → Represents cap r h q
      → length q < cap
      → ((push cap r x).0 ≡ true) × Represents cap (push cap r x).1 h (q ++ x ∷ [])
  unfolding push
  push-room r h q x (at, held) room =
      let bounds = capacity_bounds cap is_cap in
      let t = h + length q in
      let target : slot cap r.write_index ≡ t % cap =
        ap (slot cap) at.writes ∙ slot-eq-mod cap t is_cap in
      let has_room : ltb cap (sub_size (add_size r.write_index 1) r.read_index) ≡ false =
        ground arith in
      rw has_room (
        refl,
        (
          record {
            reads = at.reads;
            writes = omega (arith, at.writes, length-append q (x ∷ []));
            fits = omega (arith, length-append q (x ∷ []));
            storage = omega (arith, at.storage, length-set r.buffer (slot cap r.write_index) x);
          },
          rw target (Holds-push r.buffer cap h x q at.storage room held),
        ),
      )

  pub pop-empty :
      (r : Ring A) (h : ℕ) (value : A) → Represents cap r h [] → pop cap r value ≡ (false, value, r)
  unfolding pop
  pop-empty r h value (at, _) = ground arith

  pub pop-first :
      (r : Ring A) (h : ℕ) (x : A) (q : List A) (value : A)
      → Represents cap r h (x ∷ q)
      → ((pop cap r value).0 ≡ true)
        × ((pop cap r value).1 ≡ x)
        × Represents cap (pop cap r value).2 (suc h) q
  unfolding pop
  pop-first r h x q value (at, (here, later)) =
      let bounds = capacity_bounds cap is_cap in
      let source : slot cap r.read_index ≡ h % cap =
        ap (slot cap) at.reads ∙ slot-eq-mod cap h is_cap in
      let not_empty : (r.read_index == r.write_index) ≡ false = ground arith in
      rw not_empty (
        refl,
        ap (λ i. get_or r.buffer i value) source
            ∙ get_or_of_get_elem? r.buffer (h % cap) value here,
        (
          record {
            reads = omega (arith, at.reads);
            writes = omega (arith, at.writes);
            fits = omega (arith, at.fits);
            storage = at.storage;
          },
          later,
        ),
      )

  -- On a ring that stands for a queue, with a capacity that is a power of two, `push` answers as
  -- the bounded queue does, and leaves the ring standing for its new content; this holds however
  -- often the counters have wrapped.
  pub push_refines :
      (r : Ring A) (h : ℕ) (q : List A) (x : A)
      → Represents cap r h q
      → ((push cap r x).0 ≡ (offer cap q x).0) × Represents cap (push cap r x).1 h (offer cap q x).1
  unfolding offer
  push_refines r h q x rep = elim (Bool-cases (ltb (length q) cap)) [
    | inl room ↦ rw room (push-room r h q x rep (ltb→lt _ _ room))
    | inr full ↦
        let filled : length q ≡ cap = omega (arith, rep.0.fits, ltb→le _ _ full) in
        rw (full, push-full r h q x rep filled) (refl, rep)
  ]

  -- What the caller of `pop` gets: the item, or nothing.
  abbrev pub result : Bool × A × Ring A → Option A
  result (b, v, _) = if b then some v else none

  -- On a ring that stands for a queue, with a capacity that is a power of two, `pop` hands over
  -- what the queue does, and leaves the ring standing for the rest.
  pub pop_refines :
      (r : Ring A) (h : ℕ) (q : List A) (value : A)
      → Represents cap r h q
      → (result (pop cap r value) ≡ (poll q).0)
        × ((h' : ℕ) × Represents cap (pop cap r value).2 h' (poll q).1)
  unfolding poll
  pop_refines r h [] value rep = rw (pop-empty r h value rep) (refl, (h, rep))
  pop_refines r h (x ∷ q) value rep =
      let (took, item, rest) = pop-first r h x q value rep in (rw (took, item), (suc h, rest))

  -- A client's calls in order, each with what it returns.
  unfoldable pub run : Ring A → A → List (Call A) → List (Reply A)
  run r value [] = []
  run r value (put x ∷ calls) = let (b, r') = push cap r x in stored b ∷ run r' value calls
  run r value (get ∷ calls) =
      let got = pop cap r value in taken (result got) ∷ run got.2 got.1 calls

  -- A ring that stands for a queue answers any sequence of calls as the bounded queue does, if the
  -- capacity is a power of two.
  pub run_refines :
      (calls : List (Call A)) (r : Ring A) (h : ℕ) (q : List A) (value : A)
      → Represents cap r h q
      → run r value calls ≡ Queue.run cap q calls
  unfolding run Queue.run
  run_refines [] r h q value rep = refl
  run_refines (put x ∷ calls) r h q value rep =
      let (answer, next) = push_refines r h q x rep in
      ap₂ (λ b l. stored b ∷ l) answer (run_refines calls _ h _ value next)
  run_refines (get ∷ calls) r h q value rep =
      let (answer, (h', next)) = pop_refines r h q value rep in
      ap₂ (λ o l. taken o ∷ l) answer (run_refines calls _ h' _ _ next)

  -- The constructor makes an empty ring of any array of the right length.
  pub init-Represents :
      (storage : List A) → length storage ≡ cap → Represents cap (init storage) 0 []
  init-Represents storage e = (omega arith, tt)
