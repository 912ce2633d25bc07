-- ===== src/Programs/Analyzer/Tests.antt =====
-- The analyzer at concrete packets.
use fix_feed_simulator.Prelude.{
  ◌≡◌, ◌↔◌, inl, inr, none, refl, arith, [], ◌∷◌, List, true, replicate,
}
use fix_feed_simulator.Prelude.Bytes.{Bytes, codes}
use fix_feed_simulator.Fix.Decimal.{decimal}
use fix_feed_simulator.Network.Capturer.{Answers}
use fix_feed_simulator.Programs.Analyzer.{
  Frame, bytes_of, uncut, HasShort, shown, on_packet_received, main, analyzer_faults,
}

abbrev hello : Frame
hello = record {
  eth = replicate 14 1;
  first = 0x45;
  ip = replicate 19 0;
  udp = replicate 8 2;
  payload = codes "hi";
}

abbrev all_well : Answers
all_well = record { create_ok = true; activate_ok = true; compile_ok = true; set_filter_ok = true }

shown_twice :
    shown (hello ∷ hello ∷ [])
    ≡ codes "--- PACKET RECEIVED (2 bytes) ---"
      ∷ codes "hi"
      ∷ codes "--- PACKET RECEIVED (2 bytes) ---"
      ∷ codes "hi"
      ∷ []
unfolding on_packet_received decimal
shown_twice = refl

-- A packet of 14 bytes after a whole frame.
abbrev runt : List Bytes
runt = bytes_of hello ∷ replicate 14 1 ∷ []

analyzer_faults_example : (main all_well (uncut runt) ≡ none) ↔ HasShort runt
analyzer_faults_example = analyzer_faults all_well runt (refl, refl, refl, refl)

runt-HasShort : HasShort runt
runt-HasShort = inr (inl (omega arith))
