-- ===== src/Programs/Feed/Tests.antt =====
-- A tick that is made, queued, taken and sent, and its message captured twice.
use fix_feed_simulator.Prelude.{◌≡◌, refl, List, [], ◌∷◌, ◌++◌, All, true, some, replicate}
use fix_feed_simulator.Prelude.Bytes.{Bytes}
use mathlib.Core.List.Memᴰ
use fix_feed_simulator.Network.Capturer.{Answers}
use fix_feed_simulator.Market.Wire.{Tells}
use fix_feed_simulator.Market.Cents.{cents, cents_clean}
use fix_feed_simulator.Programs.Sources.{from_rw_nonblocking, Emitted-Tells}
use fix_feed_simulator.Programs.Feed.Sent.{sent_one}
use fix_feed_simulator.Programs.Analyzer.{Frame, captured, shown, greeting, capture_line, main}
use fix_feed_simulator.Programs.Feed.{Snapshot, feed_shown}

abbrev frame : Bytes → Frame
frame payload = record {
  eth = replicate 14 1;
  first = 0x45;
  ip = replicate 19 0;
  udp = replicate 8 2;
  payload = payload;
}

abbrev twice : List Frame
twice = frame sent_one.message ∷ frame sent_one.message ∷ []

abbrev all_well : Answers
all_well = record { create_ok = true; activate_ok = true; compile_ok = true; set_filter_ok = true }

feed_shown_example :
    (main all_well (captured twice)
      ≡ some (record { lines = greeting ++ capture_line ∷ shown twice; status = 0 }))
    × All (λ f. Snapshot cents sent_one.last.popped f.payload) twice
unfolding sent_one
feed_shown_example =
    feed_shown cents cents_clean 32767 all_well twice (from_rw_nonblocking sent_one.reach)
      (refl, refl, refl, refl)
      (((refl, refl, refl), Memᴰ.head refl), (((refl, refl, refl), Memᴰ.head refl), tt))

Emitted-Tells_example : Tells cents sent_one.last.popped sent_one.last.wire
Emitted-Tells_example = Emitted-Tells cents 32767 cents_clean (from_rw_nonblocking sent_one.reach)
