-- ===== src/Core/LockFree/View.antt =====
-- What a client can tell of a ring of include/core/nonblocking_ring_buffer.h: not where its counters
-- stand, nor what lies in the slots that are free.
use mathlib.Core.Quot
use mathlib.Core.Quot.{Quot, Quot-set}
use mathlib.Core.Equiv.{IsEquiv, iso_to_equiv}
use mathlib.Core.HLevel.{Σ_prop_path, prop→set}
use native.Mathlib.Bridge.{le_prop}
use fix_feed_simulator.Prelude.{
  ℕ, ◌+◌, ◌≤◌, ◌≡◌, refl, sym, ◌∙◌, ap, ap₂, arith, List, [], ◌∷◌, ◌++◌, append_assoc, append-nil,
  length, length-append,
}
use fix_feed_simulator.Core.Queue.{Call, put, get, taken, poll}
use fix_feed_simulator.Core.Queue
use fix_feed_simulator.Core.LockFree.{Ring, IsCapacity, init, push}
use fix_feed_simulator.Core.LockFree.Refine.{
  Represents, push-room, run, run_refines, init-Represents,
}

module _ {ℓ} (A : Type ℓ) (cap : ℕ) where
  -- Two queues that answer every sequence of calls alike have the same items.
  pub queue_seen :
      (q q' : List A)
      → ((calls : List (Call A)) → Queue.run cap q calls ≡ Queue.run cap q' calls)
      → q ≡ q'
  unfolding Queue.run poll
  queue_seen [] [] alike = refl
  queue_seen [] (y ∷ q') alike = let first = alike (get ∷ []) in cc
  queue_seen (x ∷ q) [] alike = let first = alike (get ∷ []) in cc
  queue_seen (x ∷ q) (y ∷ q') alike =
      ap₂ (λ a l. a ∷ l) (let first = alike (get ∷ []) in cc)
        (queue_seen q q' (λ calls. let more = alike (get ∷ calls) in cc))

  -- A ring, how many items it has given out, and the queue that it stands for.
  pub record State : Type ℓ where
    pub ring : Ring A
    pub given_out : ℕ
    pub items : List A
    pub represents : Represents cap ring given_out items

  abbrev pub Bounded : Type ℓ
  Bounded = (q : List A) × (length q ≤ cap)

  module _ (is_cap : IsCapacity cap) where
    -- No sequence of calls tells them apart, whatever the callers' variables hold.
    abbrev pub Alike : State → State → Type ℓ
    Alike s t =
        (calls : List (Call A)) (value value' : A)
        → run cap is_cap s.ring value calls ≡ run cap is_cap t.ring value' calls

    abbrev pub View : Type ℓ
    View = Quot Alike

    same-Alike : (s t : State) → s.items ≡ t.items → Alike s t
    same-Alike s t e calls value value' =
        run_refines cap is_cap calls s.ring s.given_out s.items value s.represents
        ∙ ap (λ q. Queue.run cap q calls) e
        ∙ sym (run_refines cap is_cap calls t.ring t.given_out t.items value' t.represents)

    Alike-seen : A → (s t : State) → Alike s t → s.items ≡ t.items
    Alike-seen value s t alike = queue_seen s.items t.items (λ calls.
        sym (run_refines cap is_cap calls s.ring s.given_out s.items value s.represents)
        ∙ alike calls value value
        ∙ run_refines cap is_cap calls t.ring t.given_out t.items value t.represents)

    pub Alike-same : (s t : State) → Alike s t → s.items ≡ t.items
    Alike-same s t alike = by_items s.items t.items refl refl
      where
        by_items : (q q' : List A) → s.items ≡ q → t.items ≡ q' → s.items ≡ t.items
        by_items [] [] e e' = e ∙ sym e'
        by_items (x ∷ q) q' e e' = Alike-seen x s t alike
        by_items [] (y ∷ q') e e' = Alike-seen y s t alike

    -- Items pushed one after the other into a ring with room for them.
    fill :
        (todo : List A) (s : State)
        → length s.items + length todo ≤ cap
        → (t : State) × (t.items ≡ s.items ++ todo)
    fill [] s room = (s, sym (append-nil s.items))
    fill (x ∷ todo) s room =
        let (answer, rep) =
          push-room cap is_cap s.ring s.given_out s.items x s.represents (omega arith) in
        let next : State = record {
          ring = (push cap s.ring x).1;
          given_out = s.given_out;
          items = s.items ++ x ∷ [];
          represents = rep;
        } in
        let (t, e) = fill todo next (omega (arith, length-append s.items (x ∷ []))) in
        (t, e ∙ append_assoc s.items (x ∷ []) todo)

    module _ (set : IsSet A) (storage : List A) (whole : length storage ≡ cap) where
      items_set : IsSet (List A)
      items_set = hlevel

      fits_set : (q : List A) → IsSet (length q ≤ cap)
      fits_set q = prop→set le_prop

      pub Bounded-set : IsSet Bounded
      Bounded-set = hlevel (items_set, fits_set)

      unfoldable pub content : View → Bounded
      content =
          Quot.lift Bounded-set (λ s. (s.items, s.represents.0.fits))
            (λ s t alike. Σ_prop_path (λ q. le_prop) (Alike-same s t alike))

      filled : (q : List A) → length q ≤ cap → (t : State) × (t.items ≡ q)
      filled q fits =
          fill q
            (record {
              ring = init storage;
              given_out = 0;
              items = [];
              represents = init-Represents cap is_cap storage whole;
            })
            (omega arith)

      -- All that a client can tell of a ring, if it makes its calls one at a time, is which items the
      -- ring holds, in order: rings up to what calls tell of them are the queues of at most `Capacity`
      -- items, and each of those is held by some ring; if the capacity is a power of two, the items
      -- form a set and there is an array of that length.
      pub rings_are_queues : IsEquiv content
      unfolding content
      rings_are_queues =
          (iso_to_equiv {A = View} {B = Bounded} (record {
            fun = content;
            inv = λ (q, fits). Quot.mk (filled q fits).0;
            rinv = λ (q, fits). Σ_prop_path (λ q. le_prop) (filled q fits).1;
            linv =
                Quot.ind (λ v. Quot-set _ _)
                  (λ s. Quot.sound (
                    same-Alike (filled s.items s.represents.0.fits).0 s
                      (filled s.items s.represents.0.fits).1));
          })).1
