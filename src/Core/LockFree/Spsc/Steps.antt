-- ===== src/Core/LockFree/Spsc/Steps.antt =====
-- Every step of the two threads keeps the invariant, so every reachable state has it.
use fix_feed_simulator.Prelude.{
  ℕ, suc, ◌+◌, ◌%◌, ◌≡◌, refl, subst, ◌∙◌, sym, ap, arith, List, [], ◌∷◌, ◌++◌, append_assoc, false,
  length, length-append, get_elem?, get_or, ◌==◌,
}
use mathlib.Core.Option.{some-injective}
use fix_feed_simulator.Prelude.Words.{size_mod, add_size}
use fix_feed_simulator.Core.Slots.{Holds-append, Holds-first}
use fix_feed_simulator.Core.LockFree.{IsCapacity, slot}
use fix_feed_simulator.Core.LockFree.Refine.{Represents, slot-eq-mod, init-Represents}
use fix_feed_simulator.Core.LockFree.Spsc.{
  Producer, Consumer, System, Step, push_load_own, push_load_other, push_refuse, push_write,
  push_publish, pop_load_own, pop_load_other, pop_refuse, pop_copy, pop_publish, start, Reach, here,
  later,
}
use fix_feed_simulator.Core.LockFree.Spsc.Invariant.{
  Inv, sent_count, ProducerAt, ConsumerAt, item_seen, push_write-Inv,
}

module _ {ℓ} {A : Type ℓ} (cap : ℕ) (is_cap : IsCapacity cap) (s : System A) (inv : Inv cap s) where
  counts : length s.sent ≡ length s.received + length inv.queue
  counts = sent_count cap s inv

  push_publish-Inv :
      (item : A) (w : ℕ)
      → s.producer ≡ Producer.written item w
      → Inv cap (record s {
        producer = Producer.ready;
        ring = record (s.ring) { write_index = add_size w 1 };
        sent = s.sent ++ item ∷ [];
      })
  push_publish-Inv item w e =
      let (own, free, cell) = subst (ProducerAt cap is_cap s inv) e inv.producer_ok in
      let (at, held) = inv.ring_ok in
      let n = length s.received in
      let grown = length-append s.sent (item ∷ []) in
      let longer = length-append inv.queue (item ∷ []) in
      record {
        queue = inv.queue ++ item ∷ [];
        order = ap (λ l. l ++ item ∷ []) inv.order ∙ append_assoc s.received inv.queue (item ∷ []);
        ring_ok = (
          record {
            reads = at.reads;
            writes = omega (arith, own, longer, counts);
            fits = omega (arith, longer, counts, inv.seen.read_past);
            storage = at.storage;
          },
          Holds-append s.ring.buffer cap n item inv.queue held
              (ap (λ t. get_elem? s.ring.buffer (t % cap)) (sym counts) ∙ cell),
        );
        seen = omega (arith, inv.seen, grown, free);
        producer_ok = tt;
        consumer_ok = inv.consumer_ok;
      }

  pop_copy-Inv :
      (value : A) (r w : ℕ)
      → s.consumer ≡ Consumer.both_loaded r w
      → (r == w) ≡ false
      → Inv cap
          (record s { consumer = Consumer.copied (get_or s.ring.buffer (slot cap r) value) r })
  pop_copy-Inv value r w e more =
      let (own, _, _) = subst (ConsumerAt cap is_cap s inv) e inv.consumer_ok in
      let n = length s.received in
      let source : slot cap r ≡ n % cap = ap (slot cap) own ∙ slot-eq-mod cap n is_cap in
      let behind = item_seen cap is_cap s inv r w e more in
      rw source (record {
        queue = inv.queue;
        order = inv.order;
        ring_ok = inv.ring_ok;
        seen = inv.seen;
        producer_ok = inv.producer_ok;
        consumer_ok = (
          own,
          behind,
          Holds-first s.ring.buffer cap n inv.queue value
              (omega (arith, behind, counts, inv.seen.write_past)) inv.ring_ok.1,
        );
      })

  pop_publish_from :
      (value : A) (r : ℕ) (q : List A)
      → s.sent ≡ s.received ++ q
      → Represents cap s.ring (length s.received) q
      → ConsumerAt cap is_cap s inv (Consumer.copied value r)
      → Inv cap (record s {
        consumer = Consumer.ready;
        ring = record (s.ring) { read_index = add_size r 1 };
        received = s.received ++ value ∷ [];
      })
  pop_publish_from value r [] order _ (own, behind, _) =
      absurd
        (omega (arith, behind, inv.seen.write_past, ap length order, length-append s.received []))
  pop_publish_from value r (x ∷ q) order (at, (front, rest)) (own, behind, cell) =
      let same : x ≡ value = some-injective x value (sym front ∙ cell) in
      let grown : length (s.received ++ value ∷ []) ≡ suc (length s.received) =
        omega (arith, length-append s.received (value ∷ [])) in
      record {
        queue = q;
        order =
            order
            ∙ ap (λ v. s.received ++ v ∷ q) same
            ∙ sym (append_assoc s.received (value ∷ []) q);
        ring_ok = rw grown (
          record {
            reads = omega (arith, own);
            writes = omega (arith, at.writes);
            fits = omega (arith, at.fits);
            storage = at.storage;
          },
          rest,
        );
        seen = omega (arith, inv.seen, grown, behind);
        producer_ok = inv.producer_ok;
        consumer_ok = tt;
      }

module _ {ℓ} {A : Type ℓ} (cap : ℕ) (is_cap : IsCapacity cap) where
  pub Step-Inv : {s t : System A} → Step cap s t → Inv cap s → Inv cap t
  Step-Inv {s} (push_load_own item e) inv = record {
    queue = inv.queue;
    order = inv.order;
    ring_ok = inv.ring_ok;
    seen = inv.seen;
    producer_ok = (inv.ring_ok.0.writes ∙ ap (λ t. t % size_mod) (sym (sent_count cap s inv)), tt);
    consumer_ok = inv.consumer_ok;
  }
  Step-Inv {s} (push_load_other item w n e lo hi) inv = record {
    queue = inv.queue;
    order = inv.order;
    ring_ok = inv.ring_ok;
    seen = omega (arith, inv.seen);
    producer_ok = ((subst (ProducerAt cap is_cap s inv) e inv.producer_ok).0, refl, tt);
    consumer_ok = inv.consumer_ok;
  }
  Step-Inv {s} (push_refuse item w r e full) inv = record {
    queue = inv.queue;
    order = inv.order;
    ring_ok = inv.ring_ok;
    seen = inv.seen;
    producer_ok = tt;
    consumer_ok = inv.consumer_ok;
  }
  Step-Inv {s} (push_write item w r e room) inv = push_write-Inv cap is_cap s inv item w r e room
  Step-Inv {s} (push_publish item w e) inv = push_publish-Inv cap is_cap s inv item w e
  Step-Inv {s} (pop_load_own e) inv = record {
    queue = inv.queue;
    order = inv.order;
    ring_ok = inv.ring_ok;
    seen = inv.seen;
    producer_ok = inv.producer_ok;
    consumer_ok = (inv.ring_ok.0.reads, tt);
  }
  Step-Inv {s} (pop_load_other r n e lo hi) inv = record {
    queue = inv.queue;
    order = inv.order;
    ring_ok = inv.ring_ok;
    seen = omega (arith, inv.seen);
    producer_ok = inv.producer_ok;
    consumer_ok = ((subst (ConsumerAt cap is_cap s inv) e inv.consumer_ok).0, refl, tt);
  }
  Step-Inv {s} (pop_refuse r w e none_left) inv = record {
    queue = inv.queue;
    order = inv.order;
    ring_ok = inv.ring_ok;
    seen = inv.seen;
    producer_ok = inv.producer_ok;
    consumer_ok = tt;
  }
  Step-Inv {s} (pop_copy value r w e more) inv = pop_copy-Inv cap is_cap s inv value r w e more
  Step-Inv {s} (pop_publish value r e) inv =
      pop_publish_from cap is_cap s inv value r inv.queue inv.order inv.ring_ok
        (subst (ConsumerAt cap is_cap s inv) e inv.consumer_ok)

  start-Inv : (storage : List A) → length storage ≡ cap → Inv cap (start cap storage)
  start-Inv storage e = record {
    queue = [];
    order = refl;
    ring_ok = init-Represents cap is_cap storage e;
    seen = omega arith;
    producer_ok = tt;
    consumer_ok = tt;
  }

  -- The invariant holds in every state that the two threads can reach.
  pub Reach-Inv :
      (storage : List A) {s : System A} → length storage ≡ cap → Reach cap storage s → Inv cap s
  Reach-Inv storage e here = start-Inv storage e
  Reach-Inv storage e (later r st) = Step-Inv st (Reach-Inv storage e r)
