-- ===== src/Fix/Corruption.antt =====
-- What the checksum of include/fix/message.h is good for.
use fix_feed_simulator.Prelude.{ℕ, ◌≡◌, refl, [], ◌∷◌, ◌++◌}
use fix_feed_simulator.Prelude.Bytes.{Bytes, codes}
use fix_feed_simulator.Fix.Decimal.{decimal}
use fix_feed_simulator.Fix.Message.{soh, FixMessage, framed, finalize}
use fix_feed_simulator.Fix.RoundTrip.{trailer}

-- What stands before the body depends on its length alone.
front : Bytes → ℕ → Bytes
front begin_string n =
    ((codes "8=" ++ begin_string) ++ soh ∷ []) ++ (codes "9=" ++ decimal n ++ soh ∷ [])

-- The bytes of a built message after one byte of the body has changed on the way.
abbrev pub garbled : FixMessage → Bytes → Bytes
garbled m body = framed (record m { body_buffer = body }) ++ trailer m

pub garbled-same : (m : FixMessage) → garbled m m.body_buffer ≡ (finalize m).1
unfolding finalize
garbled-same m = refl
