-- ===== src/Core/Blocking/Crowd/Tests.antt =====
-- Two producers asleep on a full ring, and a consumer that has made room for one of them.
use fix_feed_simulator.Prelude.{ℕ, ◌+◌, ◌<◌, ◌≤◌, ◌≡◌, refl, arith, [], ◌∷◌, false}
use fix_feed_simulator.Core.Blocking.{Ring, push, pop}
use fix_feed_simulator.Core.Blocking.Waiting.{idle, done}
use fix_feed_simulator.Core.Blocking.Crowd.{
  Crowd, push_calls, push_waits, pop_calls, pop_goes, Reach, here, later,
}
use fix_feed_simulator.Core.Blocking.Crowd.Wakeups.{no_sleeper_forgotten, crowd_awake}

abbrev full : Ring ℕ
full = record { buffer = 8 ∷ 7 ∷ []; write_index = 1; read_index = 1; count = 2; stopped = false }

record Run : Type 0 where
  last : Crowd ℕ
  reach : Reach 2 full 2 1 last

sleepy : Run
unfolding push pop
sleepy = record {
  last = _;
  reach =
      later
        (later
          (later
            (later (later (later here (push_calls 1 refl)) (push_waits 9 0 refl refl))
              (push_calls 0 refl))
            (push_waits 10 0 refl refl))
          (pop_calls 0 refl))
        (pop_goes 0 _ _ _ 0 refl refl);
}

no_sleeper_forgotten_example :
    let s = sleepy.last in
    (0 < s.producers.asleep → 2 ≤ s.ring.count + s.producers.woken + s.consumers.notifying)
    × (0 < s.consumers.asleep → s.ring.count ≤ s.consumers.woken + s.producers.notifying)
unfolding sleepy
no_sleeper_forgotten_example =
    no_sleeper_forgotten 2 (omega arith) full 2 1 refl (omega arith) sleepy.reach refl

crowd_awake_example :
    let s = sleepy.last in
    (s.stopper ≡ idle
      → 0 < s.producers.asleep
      → 0 < s.consumers.asleep
      → 0 < s.producers.woken + s.producers.notifying + s.consumers.woken + s.consumers.notifying)
    × (s.stopper ≡ done → (s.producers.asleep ≡ 0) × (s.consumers.asleep ≡ 0))
crowd_awake_example =
    crowd_awake 2 (omega arith) full 2 1 (omega arith) refl (omega arith) sleepy.reach
