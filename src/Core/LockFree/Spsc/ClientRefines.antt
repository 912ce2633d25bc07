-- ===== src/Core/LockFree/Spsc/ClientRefines.antt =====
-- A system over the ring of include/core/nonblocking_ring_buffer.h does what it does over a queue.
use fix_feed_simulator.Prelude.{
  ℕ, ◌<◌, ◌≡◌, refl, sym, ap, subst, ◌∙◌, arith, List, [], ◌∷◌, ◌++◌, append_assoc, length,
  length-append,
}
use fix_feed_simulator.Core.LockFree.{IsCapacity}
use fix_feed_simulator.Core.LockFree.Spsc as Spsc
use fix_feed_simulator.Core.LockFree.Spsc.Safety.{fifo}
use fix_feed_simulator.Core.LockFree.Spsc.Linear.{append_cancel}
use fix_feed_simulator.Core.LockFree.Spsc.Client.{
  RingClient, RingLaws, Whole, IsPushing, IsPopping, Joint, away, push_begins, push_goes_on,
  push_refuses, push_publishes, pop_goes_on, pop_refuses, pop_publishes, Joined, here, later,
}

module _ {ℓ} {T S : Type ℓ} (cap : ℕ) (is_cap : IsCapacity cap) (c : RingClient T S)
    (Good : List T → S → Type ℓ) (laws : RingLaws c cap Good) (storage : List T)
    (whole : length storage ≡ cap) where
  -- The item of a `push` under way is that of the system's call.
  abbrev InCall : Spsc.Producer T → S → Type ℓ
  InCall Spsc.Producer.ready s = Unit
  InCall (Spsc.Producer.own_loaded item w) s = c.Pushing item s
  InCall (Spsc.Producer.both_loaded item w r) s = c.Pushing item s
  InCall (Spsc.Producer.written item w) s = c.Pushing item s

  InCall-stays :
      (r : Spsc.Producer T) (s t : S)
      → ((item : T) → c.Pushing item s → c.Pushing item t)
      → InCall r s
      → InCall r t
  InCall-stays Spsc.Producer.ready s t stay h = tt
  InCall-stays (Spsc.Producer.own_loaded item w) s t stay h = stay item h
  InCall-stays (Spsc.Producer.both_loaded item w r) s t stay h = stay item h
  InCall-stays (Spsc.Producer.written item w) s t stay h = stay item h

  -- What the system has come to over a queue, when the queue holds what the ring holds.
  record Refines (s : Whole T S) : Type ℓ where
    ring_reach : Spsc.Reach cap storage s.ring
    in_call : InCall s.ring.producer s.system
    queue : List T
    order : s.ring.sent ≡ s.ring.received ++ queue
    good : Good queue s.system

  -- A step within a call.
  ring_moves :
      {s : Whole T S} {r : Spsc.System T} (inv : Refines s)
      → Spsc.Step cap s.ring r
      → InCall r.producer s.system
      → r.sent ≡ s.ring.sent
      → r.received ≡ s.ring.received
      → Refines (record s { ring = r })
  ring_moves inv st in_call sent received = record {
    ring_reach = Spsc.later inv.ring_reach st;
    in_call = in_call;
    queue = inv.queue;
    order = sent ∙ inv.order ∙ ap (λ l. l ++ inv.queue) (sym received);
    good = inv.good;
  }

  call_at :
      {s : Whole T S} (inv : Refines s) (p : Spsc.Producer T)
      → s.ring.producer ≡ p
      → InCall p s.system
  call_at {s} inv p e = subst (λ r. InCall r s.system) e inv.in_call

  push_on :
      {s : Whole T S} {r : Spsc.System T} (inv : Refines s) (st : Spsc.Step cap s.ring r)
      → IsPushing cap st
      → Refines (record s { ring = r })
  push_on inv (Spsc.push_load_other item w n at lo hi) ok =
      ring_moves inv (Spsc.push_load_other item w n at lo hi)
        (call_at inv (Spsc.Producer.own_loaded item w) at) refl refl
  push_on inv (Spsc.push_write item w r at room) ok =
      ring_moves inv (Spsc.push_write item w r at room)
        (call_at inv (Spsc.Producer.both_loaded item w r) at) refl refl
  push_on inv (Spsc.push_load_own item at) ok = absurd ok
  push_on inv (Spsc.push_refuse item w r at full) ok = absurd ok
  push_on inv (Spsc.push_publish item w at) ok = absurd ok
  push_on inv (Spsc.pop_load_own at) ok = absurd ok
  push_on inv (Spsc.pop_load_other r n at lo hi) ok = absurd ok
  push_on inv (Spsc.pop_refuse r w at none_left) ok = absurd ok
  push_on inv (Spsc.pop_copy value r w at more) ok = absurd ok
  push_on inv (Spsc.pop_publish value r at) ok = absurd ok

  pop_on :
      {s : Whole T S} {r : Spsc.System T} (inv : Refines s) (st : Spsc.Step cap s.ring r)
      → IsPopping cap st
      → Refines (record s { ring = r })
  pop_on inv (Spsc.pop_load_own at) ok = ring_moves inv (Spsc.pop_load_own at) inv.in_call refl refl
  pop_on inv (Spsc.pop_load_other r n at lo hi) ok =
      ring_moves inv (Spsc.pop_load_other r n at lo hi) inv.in_call refl refl
  pop_on inv (Spsc.pop_copy value r w at more) ok =
      ring_moves inv (Spsc.pop_copy value r w at more) inv.in_call refl refl
  pop_on inv (Spsc.push_load_own item at) ok = absurd ok
  pop_on inv (Spsc.push_load_other item w n at lo hi) ok = absurd ok
  pop_on inv (Spsc.push_refuse item w r at full) ok = absurd ok
  pop_on inv (Spsc.push_write item w r at room) ok = absurd ok
  pop_on inv (Spsc.push_publish item w at) ok = absurd ok
  pop_on inv (Spsc.pop_refuse r w at none_left) ok = absurd ok
  pop_on inv (Spsc.pop_publish value r at) ok = absurd ok

  Joint-Refines : {s t : Whole T S} → Joint cap c s t → Refines s → Refines t
  Joint-Refines {s} (away st) inv = record {
    ring_reach = inv.ring_reach;
    in_call = InCall-stays s.ring.producer _ _ (λ item. laws.stays st) inv.in_call;
    queue = inv.queue;
    order = inv.order;
    good = laws.good_away st inv.good;
  }
  Joint-Refines (push_begins item at outside) inv =
      ring_moves inv (Spsc.push_load_own item outside) at refl refl
  Joint-Refines (push_goes_on item st at within) inv = push_on inv st within
  Joint-Refines (push_refuses called item w r at loaded full) inv = record {
    ring_reach = Spsc.later inv.ring_reach (Spsc.push_refuse item w r loaded full);
    in_call = tt;
    queue = inv.queue;
    order = inv.order;
    good = laws.good_push_no at inv.good;
  }
  Joint-Refines {s} (push_publishes called item w at written) inv =
      let ring_reach = Spsc.later inv.ring_reach (Spsc.push_publish item w written) in
      let (under_way, order, fits) = fifo cap is_cap storage whole ring_reach in
      let same = laws.one_item (call_at inv (Spsc.Producer.written item w) written) at in
      let room : length inv.queue < cap = omega (
        arith,
        ap length inv.order,
        ap length order,
        length-append s.ring.sent (item ∷ []),
        length-append s.ring.received inv.queue,
        length-append s.ring.received under_way,
        fits,
      ) in
      record {
        ring_reach = ring_reach;
        in_call = tt;
        queue = inv.queue ++ called ∷ [];
        order =
            ap (λ l. l ++ item ∷ []) inv.order
            ∙ ap (λ x. (s.ring.received ++ inv.queue) ++ x ∷ []) same
            ∙ append_assoc s.ring.received inv.queue (called ∷ []);
        good = laws.good_push_yes at room inv.good;
      }
  Joint-Refines (pop_goes_on st at within) inv = pop_on inv st within
  Joint-Refines {s} (pop_refuses r w at loaded none_left) inv = record {
    ring_reach = Spsc.later inv.ring_reach (Spsc.pop_refuse r w loaded none_left);
    in_call = InCall-stays s.ring.producer _ _ (λ item. laws.pop_no_stays at) inv.in_call;
    queue = inv.queue;
    order = inv.order;
    good = laws.good_pop_no at inv.good;
  }
  Joint-Refines {s} (pop_publishes item r at copied) inv =
      let ring_reach = Spsc.later inv.ring_reach (Spsc.pop_publish item r copied) in
      let (under_way, order, fits) = fifo cap is_cap storage whole ring_reach in
      let front : inv.queue ≡ item ∷ under_way =
        append_cancel s.ring.received inv.queue (item ∷ under_way)
          (sym inv.order ∙ order ∙ append_assoc s.ring.received (item ∷ []) under_way) in
      record {
        ring_reach = ring_reach;
        in_call =
            InCall-stays s.ring.producer _ _ (λ other. laws.pop_yes_stays item at) inv.in_call;
        queue = under_way;
        order = order;
        good = laws.good_pop_yes at (subst (λ q. Good q s.system) front inv.good);
      }

  Joined-Refines :
      {first : S} {s : Whole T S} → Good [] first → Joined cap c storage first s → Refines s
  Joined-Refines good here = record {
    ring_reach = Spsc.here;
    in_call = tt;
    queue = [];
    order = refl;
    good = good;
  }
  Joined-Refines good (later joined st) = Joint-Refines st (Joined-Refines good joined)

  -- A system over the ring can be in no state in which it cannot be over a queue that holds the
  -- items sent and not received.
  pub client_refines :
      {first : S} {s : Whole T S}
      → Good [] first
      → Joined cap c storage first s
      → (q : List T) × (s.ring.sent ≡ s.ring.received ++ q) × Good q s.system
  client_refines good joined =
      let inv = Joined-Refines good joined in (inv.queue, inv.order, inv.good)
