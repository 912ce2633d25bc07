-- ===== src/Core/LockFree/Spsc/Invariant.antt =====
-- What every step of the two threads keeps.
use native.Mathlib.Nat.{mod-lt}
use fix_feed_simulator.Prelude.{
  ℕ, ◌+◌, ◌%◌, ◌≤◌, ◌<◌, ◌≡◌, subst, ◌∙◌, sym, ap, arith, List, ◌++◌, some, false, length,
  length-append, length-set, set, get_elem?, get_elem?-set_self, get_elem?-set_ne, ◌==◌,
}
use fix_feed_simulator.Prelude.Words.{size_mod}
use fix_feed_simulator.Core.Slots.{slot_ne, Holds-set}
use fix_feed_simulator.Core.LockFree.{IsCapacity, slot}
use fix_feed_simulator.Core.LockFree.Refine.{Represents, capacity_bounds, slot-eq-mod}
use fix_feed_simulator.Core.LockFree.Spsc.{Producer, Consumer, System, HasRoom}

-- The progress of each side, and how much of it the other has seen.
pub record Seen (cap sent received seen_read seen_write : ℕ) : Type 0 where
  pub read_past : seen_read ≤ received
  pub write_past : seen_write ≤ sent
  pub room : sent ≤ seen_read + cap
  pub known : received ≤ seen_write

module _ {ℓ} {A : Type ℓ} (cap : ℕ) where
  -- What the locals of the producer say of `sent` items, `seen` of them known to be read.
  abbrev pub ProducerOk : List A → ℕ → ℕ → Producer A → Type ℓ
  ProducerOk buf sent seen Producer.ready = Unit
  ProducerOk buf sent seen (Producer.own_loaded item w) = (w ≡ sent % size_mod) × Unit
  ProducerOk buf sent seen (Producer.both_loaded item w r) =
      (w ≡ sent % size_mod) × (r ≡ seen % size_mod) × Unit
  ProducerOk buf sent seen (Producer.written item w) =
      (w ≡ sent % size_mod) × (sent < seen + cap) × (get_elem? buf (sent % cap) ≡ some item)

  abbrev pub ConsumerOk : List A → ℕ → ℕ → Consumer A → Type ℓ
  ConsumerOk buf received seen Consumer.ready = Unit
  ConsumerOk buf received seen (Consumer.own_loaded r) = (r ≡ received % size_mod) × Unit
  ConsumerOk buf received seen (Consumer.both_loaded r w) =
      (r ≡ received % size_mod) × (w ≡ seen % size_mod) × Unit
  ConsumerOk buf received seen (Consumer.copied v r) =
      (r ≡ received % size_mod) × (received < seen) × (get_elem? buf (received % cap) ≡ some v)

  pub record Inv (s : System A) : Type ℓ where
    pub queue : List A
    pub order : s.sent ≡ s.received ++ queue
    pub ring_ok : Represents cap s.ring (length s.received) queue
    pub seen : Seen cap (length s.sent) (length s.received) s.seen_read s.seen_write
    pub producer_ok : ProducerOk s.ring.buffer (length s.sent) s.seen_read s.producer
    pub consumer_ok : ConsumerOk s.ring.buffer (length s.received) s.seen_write s.consumer

  pub sent_count :
      (s : System A) (inv : Inv s) → length s.sent ≡ length s.received + length inv.queue
  sent_count s inv = ap length inv.order ∙ length-append s.received inv.queue

  -- The producer writes no slot that the consumer has still to read.
  ConsumerOk-set :
      (buf : List A) (received seen t : ℕ) (item : A) (c : Consumer A)
      → seen ≤ t
      → t < received + cap
      → ConsumerOk buf received seen c
      → ConsumerOk (set buf (t % cap) item) received seen c
  ConsumerOk-set buf received seen t item Consumer.ready lo hi ok = ok
  ConsumerOk-set buf received seen t item (Consumer.own_loaded r) lo hi ok = ok
  ConsumerOk-set buf received seen t item (Consumer.both_loaded r w) lo hi ok = ok
  ConsumerOk-set buf received seen t item (Consumer.copied v r) lo hi (own, behind, cell) = (
    own,
    behind,
    get_elem?-set_ne buf (t % cap) (received % cap) item
          (λ same. slot_ne cap received t (omega arith) hi (sym same))
        ∙ cell,
  )

  module _ (is_cap : IsCapacity cap) (s : System A) (inv : Inv s) where
    abbrev pub ProducerAt : Producer A → Type ℓ
    ProducerAt = ProducerOk s.ring.buffer (length s.sent) s.seen_read

    abbrev pub ConsumerAt : Consumer A → Type ℓ
    ConsumerAt = ConsumerOk s.ring.buffer (length s.received) s.seen_write

    -- The guard of `push` lets an item through only if there is room for it.
    pub room_seen :
        (item : A) (w r : ℕ)
        → s.producer ≡ Producer.both_loaded item w r
        → HasRoom cap w r
        → length s.sent < s.seen_read + cap
    room_seen item w r e room =
        let (own, other, _) = subst ProducerAt e inv.producer_ok in
        let bounds = capacity_bounds cap is_cap in let seen = inv.seen in ground arith

    -- The guard of `pop` lets the consumer through only if there is an item.
    pub item_seen :
        (r w : ℕ)
        → s.consumer ≡ Consumer.both_loaded r w
        → (r == w) ≡ false
        → length s.received < s.seen_write
    item_seen r w e more =
        let (own, other, _) = subst ConsumerAt e inv.consumer_ok in
        let seen = inv.seen in ground arith

    pub push_write-Inv :
        (item : A) (w r : ℕ)
        → s.producer ≡ Producer.both_loaded item w r
        → HasRoom cap w r
        → Inv (record s {
          producer = Producer.written item w;
          ring = record (s.ring) { buffer = set s.ring.buffer (slot cap w) item };
        })
    push_write-Inv item w r e room =
        let (own, _, _) = subst ProducerAt e inv.producer_ok in
        let t = length s.sent in
        let target : slot cap w ≡ t % cap = ap (slot cap) own ∙ slot-eq-mod cap t is_cap in
        let free = room_seen item w r e room in
        let counts = sent_count s inv in
        let (at, held) = inv.ring_ok in
        rw target (record {
          queue = inv.queue;
          order = inv.order;
          ring_ok = (
            record {
              reads = at.reads;
              writes = at.writes;
              fits = at.fits;
              storage = omega (arith, at.storage, length-set s.ring.buffer (t % cap) item);
            },
            Holds-set s.ring.buffer cap (length s.received) t item inv.queue (omega arith)
                (omega (arith, inv.seen.read_past)) held,
          );
          seen = inv.seen;
          producer_ok = (
            own,
            free,
            get_elem?-set_self s.ring.buffer (t % cap) item
                (omega (arith, at.storage, mod-lt t {m = cap}, (capacity_bounds cap is_cap).0)),
          );
          consumer_ok =
              ConsumerOk-set s.ring.buffer (length s.received) s.seen_write t item s.consumer
                inv.seen.write_past (omega (arith, inv.seen.read_past)) inv.consumer_ok;
        })
