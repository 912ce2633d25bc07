-- ===== src/Core/LockFree/Spsc/Linear.antt =====
-- The two threads of include/core/nonblocking_ring_buffer.h against the bounded queue: an order of
-- the calls that take effect.
use fix_feed_simulator.Prelude.{
  ℕ, ◌≤◌, ◌<◌, ◌≡◌, refl, sym, ap, ◌∙◌, subst, arith, List, [], ◌∷◌, ◌++◌, append_assoc, true, some,
  length, length-append, ltb,
}
use fix_feed_simulator.Core.Queue.{offer, poll}
use fix_feed_simulator.Core.LockFree.{IsCapacity}
use fix_feed_simulator.Core.LockFree.Spsc.{
  System, Step, push_load_own, push_load_other, push_refuse, push_write, push_publish, pop_load_own,
  pop_load_other, pop_refuse, pop_copy, pop_publish, Reach, here, later,
}
use fix_feed_simulator.Core.LockFree.Spsc.Safety.{fifo}

-- The queue took the items `sent`, one offer after the other, and gave the items `received`; it
-- holds the last list.
pub data History {ℓ} {A : Type ℓ} (cap : ℕ) : List A → List A → List A → Type ℓ where
  empty : History cap [] [] []
  enters :
      {sent received q : List A} (x : A)
      → History cap sent received q
      → (offer cap q x).0 ≡ true
      → History cap (sent ++ x ∷ []) received (offer cap q x).1
  leaves :
      {sent received q : List A} (x : A)
      → History cap sent received q
      → (poll q).0 ≡ some x
      → History cap sent (received ++ x ∷ []) (poll q).1

module _ {ℓ} {A : Type ℓ} where
  pub append_cancel : (xs ys zs : List A) → xs ++ ys ≡ xs ++ zs → ys ≡ zs
  append_cancel [] ys zs e = e
  append_cancel (x ∷ xs) ys zs e = append_cancel xs ys zs (cc)

module _ {ℓ} {A : Type ℓ} (cap : ℕ) where
  entered :
      {sent received q : List A} (x : A)
      → History cap sent received q
      → length q < cap
      → History cap (sent ++ x ∷ []) received (q ++ x ∷ [])
  unfolding offer
  entered {sent} {received} {q} x h room =
      let has_room : ltb (length q) cap ≡ true = ground arith in
      subst (History cap (sent ++ x ∷ []) received) (rw has_room refl)
        (enters x h (rw has_room refl))

  left :
      {sent received q : List A} (x : A)
      → History cap sent received (x ∷ q)
      → History cap sent (received ++ x ∷ []) q
  unfolding poll
  left x h = leaves x h refl

  abbrev Explained : System A → Type ℓ
  Explained s = (q : List A) × History cap s.sent s.received q × (s.sent ≡ s.received ++ q)

  -- An item goes in: there was room, since what the two threads have under way fits then.
  push_Explained :
      (s : System A) (item : A) (under_way : List A)
      → Explained s
      → s.sent ++ item ∷ [] ≡ s.received ++ under_way
      → length under_way ≤ cap
      → (q : List A) × History cap (s.sent ++ item ∷ []) s.received q
        × (s.sent ++ item ∷ [] ≡ s.received ++ q)
  push_Explained s item under_way (q, h, e) order fits =
      let counts = ap length e in
      let room : length q < cap = omega (
        arith,
        ap length e,
        ap length order,
        length-append s.sent (item ∷ []),
        length-append s.received q,
        length-append s.received under_way,
        fits,
      ) in
      (
        q ++ item ∷ [],
        entered item h room,
        ap (λ l. l ++ item ∷ []) e ∙ append_assoc s.received q (item ∷ []),
      )

  pop_Explained :
      (s : System A) (value : A) (under_way : List A)
      → Explained s
      → s.sent ≡ (s.received ++ value ∷ []) ++ under_way
      → (q : List A) × History cap s.sent (s.received ++ value ∷ []) q
        × (s.sent ≡ (s.received ++ value ∷ []) ++ q)
  pop_Explained s value under_way (q, h, e) order =
      let front : q ≡ value ∷ under_way =
        append_cancel s.received q (value ∷ under_way)
          (sym e ∙ order ∙ append_assoc s.received (value ∷ []) under_way) in
      (under_way, left value (subst (History cap s.sent s.received) front h), order)

  module _ (is_cap : IsCapacity cap) (storage : List A) (whole : length storage ≡ cap) where
    Step-Explained :
        {s t : System A} → Reach cap storage s → Step cap s t → Explained s → Explained t
    Step-Explained r (push_load_own item e) h = h
    Step-Explained r (push_load_other item w n e lo hi) h = h
    Step-Explained r (push_refuse item w r' e full) h = h
    Step-Explained r (push_write item w r' e room) h = h
    Step-Explained {s} r (push_publish item w e) h =
        let (under_way, order, fits) =
          fifo cap is_cap storage whole (later r (push_publish item w e)) in
        push_Explained s item under_way h order fits
    Step-Explained r (pop_load_own e) h = h
    Step-Explained r (pop_load_other r' n e lo hi) h = h
    Step-Explained r (pop_refuse r' w e none_left) h = h
    Step-Explained r (pop_copy value r' w e more) h = h
    Step-Explained {s} r (pop_publish value r' e) h =
        let (under_way, order, fits) =
          fifo cap is_cap storage whole (later r (pop_publish value r' e)) in
        pop_Explained s value under_way h order

    Reach-Explained : {s : System A} → Reach cap storage s → Explained s
    Reach-Explained here = ([], empty, refl)
    Reach-Explained (later r st) = Step-Explained r st (Reach-Explained r)

    -- The calls of one producer and one consumer that take effect, each at the store of its counter,
    -- are in that order a history of the bounded queue: it takes every item when the ring does, and
    -- gives every item when the ring does, so the items received are, in order, the first of those
    -- sent, and at most `Capacity` are under way; however the two threads' accesses to memory are
    -- mixed and however old the counters are that they load, if the capacity is a power of two and
    -- the array has that length.
    pub linearizable :
        {s : System A}
        → Reach cap storage s
        → (q : List A) × History cap s.sent s.received q
          × (s.sent ≡ s.received ++ q)
          × (length q ≤ cap)
    linearizable {s} r =
        let (q, h, e) = Reach-Explained r in
        let (under_way, order, fits) = fifo cap is_cap storage whole r in
        let same : q ≡ under_way = append_cancel s.received q under_way (sym e ∙ order) in
        (q, h, e, subst (λ l. length l ≤ cap) (sym same) fits)
