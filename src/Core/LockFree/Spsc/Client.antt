-- ===== src/Core/LockFree/Spsc/Client.antt =====
-- include/core/nonblocking_ring_buffer.h between the two threads of a system that pushes and pops: the
-- calls are cut at each access to shared memory, and mixed with the other steps of the system.
use fix_feed_simulator.Prelude.{ℕ, ◌<◌, ◌≡◌, List, [], ◌∷◌, ◌++◌, true, length, ◌==◌}
use fix_feed_simulator.Prelude.Words.{add_size}
use fix_feed_simulator.Core.LockFree.Spsc as Spsc
use fix_feed_simulator.Core.LockFree.Spsc.{HasNoRoom}

-- What a system does around the ring: its steps away from it; when its producer is at the call of
-- `push` with an item, and its consumer at that of `pop`; and what it is after each outcome.
pub record RingClient {ℓ} (T S : Type ℓ) : Type (ℓ + 1) where
  pub Away : S → S → Type ℓ
  pub Pushing : T → S → Type ℓ
  pub Polling : S → Type ℓ
  pub push_no : T → S → S
  pub push_yes : T → S → S
  pub pop_no : S → S
  pub pop_yes : T → S → S

-- `Good q s`: over a queue, which holds `q`, the system can be in `s`.
pub record RingLaws {ℓ} {T S : Type ℓ} (c : RingClient T S) (cap : ℕ) (Good : List T → S → Type ℓ)
    : Type ℓ where
  pub one_item : {x y : T} {s : S} → c.Pushing x s → c.Pushing y s → x ≡ y
  pub stays : {x : T} {s t : S} → c.Away s t → c.Pushing x s → c.Pushing x t
  pub pop_no_stays : {x : T} {s : S} → c.Polling s → c.Pushing x s → c.Pushing x (c.pop_no s)
  pub pop_yes_stays :
      {x : T} (y : T) {s : S} → c.Polling s → c.Pushing x s → c.Pushing x (c.pop_yes y s)
  pub good_away : {q : List T} {s t : S} → c.Away s t → Good q s → Good q t
  pub good_push_no :
      {q : List T} {x : T} {s : S} → c.Pushing x s → Good q s → Good q (c.push_no x s)
  pub good_push_yes :
      {q : List T} {x : T} {s : S}
      → c.Pushing x s
      → length q < cap
      → Good q s
      → Good (q ++ x ∷ []) (c.push_yes x s)
  pub good_pop_no : {q : List T} {s : S} → c.Polling s → Good q s → Good q (c.pop_no s)
  pub good_pop_yes :
      {q : List T} {x : T} {s : S} → c.Polling s → Good (x ∷ q) s → Good q (c.pop_yes x s)

pub record Whole {ℓ} (T S : Type ℓ) : Type ℓ where
  pub system : S
  pub ring : Spsc.System T

module _ {ℓ} {T : Type ℓ} (cap : ℕ) where
  -- The second access of `push`, and the writing of the slot.
  abbrev pub IsPushing : {r r' : Spsc.System T} → Spsc.Step cap r r' → Type 0
  IsPushing (Spsc.push_load_other item w n at lo hi) = Unit
  IsPushing (Spsc.push_write item w r at room) = Unit
  IsPushing _ = ⊥

  -- The accesses of `pop` before its end.
  abbrev pub IsPopping : {r r' : Spsc.System T} → Spsc.Step cap r r' → Type 0
  IsPopping (Spsc.pop_load_own at) = Unit
  IsPopping (Spsc.pop_load_other r n at lo hi) = Unit
  IsPopping (Spsc.pop_copy value r w at more) = Unit
  IsPopping _ = ⊥

module _ {ℓ} {T S : Type ℓ} (cap : ℕ) (c : RingClient T S) where
  pub data Joint (s : Whole T S) : Whole T S → Type ℓ where
    away : {t : S} → c.Away s.system t → Joint s (record s { system = t })
    push_begins :
        (item : T)
        → c.Pushing item s.system
        → s.ring.producer ≡ Spsc.Producer.ready
        → Joint s (record s {
          ring = record (s.ring) {
            producer = Spsc.Producer.own_loaded item s.ring.ring.write_index;
          };
        })
    push_goes_on :
        {r : Spsc.System T} (item : T) (st : Spsc.Step cap s.ring r)
        → c.Pushing item s.system
        → IsPushing cap st
        → Joint s (record s { ring = r })
    push_refuses :
        (called item : T) (w r : ℕ)
        → c.Pushing called s.system
        → s.ring.producer ≡ Spsc.Producer.both_loaded item w r
        → HasNoRoom cap w r
        → Joint s (record s {
          system = c.push_no called s.system;
          ring = record (s.ring) { producer = Spsc.Producer.ready };
        })
    push_publishes :
        (called item : T) (w : ℕ)
        → c.Pushing called s.system
        → s.ring.producer ≡ Spsc.Producer.written item w
        → Joint s (record s {
          system = c.push_yes called s.system;
          ring = record (s.ring) {
            producer = Spsc.Producer.ready;
            ring = record (s.ring.ring) { write_index = add_size w 1 };
            sent = s.ring.sent ++ item ∷ [];
          };
        })
    pop_goes_on :
        {r : Spsc.System T} (st : Spsc.Step cap s.ring r)
        → c.Polling s.system
        → IsPopping cap st
        → Joint s (record s { ring = r })
    pop_refuses :
        (r w : ℕ)
        → c.Polling s.system
        → s.ring.consumer ≡ Spsc.Consumer.both_loaded r w
        → (r == w) ≡ true
        → Joint s (record s {
          system = c.pop_no s.system;
          ring = record (s.ring) { consumer = Spsc.Consumer.ready };
        })
    pop_publishes :
        (item : T) (r : ℕ)
        → c.Polling s.system
        → s.ring.consumer ≡ Spsc.Consumer.copied item r
        → Joint s (record s {
          system = c.pop_yes item s.system;
          ring = record (s.ring) {
            consumer = Spsc.Consumer.ready;
            ring = record (s.ring.ring) { read_index = add_size r 1 };
            received = s.ring.received ++ item ∷ [];
          };
        })

  pub data Joined (storage : List T) (first : S) : Whole T S → Type ℓ where
    here : Joined storage first (record { system = first; ring = Spsc.start cap storage })
    later : {s t : Whole T S} → Joined storage first s → Joint s t → Joined storage first t
