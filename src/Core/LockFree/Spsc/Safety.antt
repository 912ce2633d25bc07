-- ===== src/Core/LockFree/Spsc/Safety.antt =====
-- What holds in every state that the two threads of
-- include/core/nonblocking_ring_buffer.h can reach.
use fix_feed_simulator.Prelude.{
  ℕ, ◌+◌, ◌%◌, ◌≤◌, ◌≡◌, ◌≢◌, ap, subst, sym, ◌∙◌, arith, List, ◌++◌, true, false, length, ◌==◌,
}
use fix_feed_simulator.Core.Slots.{slot_ne}
use fix_feed_simulator.Core.LockFree.{IsCapacity, slot}
use fix_feed_simulator.Core.LockFree.Refine.{slot-eq-mod, capacity_bounds}
use fix_feed_simulator.Core.LockFree.Spsc.{Producer, Consumer, System, HasRoom, HasNoRoom, Reach}
use fix_feed_simulator.Core.LockFree.Spsc.Invariant.{
  Inv, ProducerAt, ConsumerAt, room_seen, item_seen,
}
use fix_feed_simulator.Core.LockFree.Spsc.Steps.{Reach-Inv}

module _ {ℓ} {A : Type ℓ} (cap : ℕ) (is_cap : IsCapacity cap) (storage : List A)
    (whole : length storage ≡ cap) where
  -- In every state that one producer and one consumer can reach, with a capacity that is a power of
  -- two and an array of that length, the items received are, in order, the first of those sent:
  -- none is lost, doubled or overtaken; and at most `Capacity` are under way.
  pub fifo :
      {s : System A}
      → Reach cap storage s
      → (under_way : List A) × (s.sent ≡ s.received ++ under_way) × (length under_way ≤ cap)
  fifo r =
      let inv = Reach-Inv cap is_cap storage whole r in (inv.queue, inv.order, inv.ring_ok.0.fits)

  -- In every state that one producer and one consumer can reach, with a capacity that is a power of
  -- two and an array of that length, when the producer is about to write a slot and the consumer
  -- about to read one, the slots differ: the two never touch one array element at once.
  pub no_data_race :
      {s : System A}
      → Reach cap storage s
      → (item : A) (w r : ℕ) → s.producer ≡ Producer.both_loaded item w r
      → HasRoom cap w r
      → (r' w' : ℕ) → s.consumer ≡ Consumer.both_loaded r' w'
      → (r' == w') ≡ false
      → slot cap w ≢ slot cap r'
  no_data_race {s} reach item w r at_push room r' w' at_pop more same =
      let inv = Reach-Inv cap is_cap storage whole reach in
      let free = room_seen cap is_cap s inv item w r at_push room in
      let behind = item_seen cap is_cap s inv r' w' at_pop more in
      let own = (subst (ProducerAt cap is_cap s inv) at_push inv.producer_ok).0 in
      let own' = (subst (ConsumerAt cap is_cap s inv) at_pop inv.consumer_ok).0 in
      let t = length s.sent in
      let n = length s.received in
      let collide : n % cap ≡ t % cap =
        sym (ap (slot cap) own' ∙ slot-eq-mod cap n is_cap)
        ∙ sym same
        ∙ ap (slot cap) own
        ∙ slot-eq-mod cap t is_cap in
      slot_ne cap n t (omega (arith, behind, inv.seen.write_past))
        (omega (arith, free, inv.seen.read_past)) collide

  -- In every state that one producer and one consumer can reach, with a capacity that is a power of
  -- two and an array of that length, a refusal is true of what the thread has seen: `push` says no
  -- only if the items sent fill the ring beyond the last read that the producer saw, `pop` only if
  -- all items that the consumer saw are taken.
  pub refusals_honest :
      {s : System A}
      → Reach cap storage s
      → ((item : A) (w r : ℕ)
          → s.producer ≡ Producer.both_loaded item w r
          → HasNoRoom cap w r
          → length s.sent ≡ s.seen_read + cap)
        × ((r w : ℕ)
            → s.consumer ≡ Consumer.both_loaded r w
            → (r == w) ≡ true
            → length s.received ≡ s.seen_write)
  refusals_honest {s} reach = (
    λ item w r at_push full.
        let (own, other, _) = subst (ProducerAt cap is_cap s inv) at_push inv.producer_ok in
        let bounds = capacity_bounds cap is_cap in let seen = inv.seen in ground arith,
    λ r w at_pop none_left.
        let (own, other, _) = subst (ConsumerAt cap is_cap s inv) at_pop inv.consumer_ok in
        let bounds = capacity_bounds cap is_cap in let seen = inv.seen in ground arith,
  )
    where
      inv : Inv cap s
      inv = Reach-Inv cap is_cap storage whole reach
