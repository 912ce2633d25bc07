-- ===== src/Network/Capturer/Tests.antt =====
-- The capture at concrete packets and answers.
use fix_feed_simulator.Prelude.{
  ◌≡◌, arith, ◌↔◌, ◌⊎◌, refl, [], ◌∷◌, ◌++◌, Bool, true, false, replicate,
}
use fix_feed_simulator.Prelude.Bytes.{Bytes, codes}
use fix_feed_simulator.Network.Capturer.{
  fault, truncated, ignored, delivered, payload_size, call_user, after_headers, handle_packet,
  start_capture, Answers,
}
use fix_feed_simulator.Network.Capturer.Frames.{Bounded, handle_packet-bounds}
use fix_feed_simulator.Network.Capturer.Opening.{
  is_close, times, lifetime, after_close, handle_closed,
}

abbrev ip_rest : Bytes
ip_rest = replicate 19 0

-- Version 4, five words of header, and "hi" as the payload.
abbrev frame : Bytes
frame = replicate 14 1 ++ ((0x45 ∷ ip_rest) ++ (replicate 8 2 ++ codes "hi"))

runs :
    (handle_packet true 44 frame ≡ delivered (codes "hi"))
    × (handle_packet false 44 frame ≡ ignored)
    × (handle_packet true 41 frame ≡ truncated)
    × (handle_packet true 3 (1 ∷ 2 ∷ 3 ∷ []) ≡ fault)
    × (start_capture ((44, frame) ∷ (42, frame) ∷ []) ≡ delivered (codes "hi") ∷ ignored ∷ [])
unfolding handle_packet after_headers call_user start_capture
runs = (refl, refl, refl, refl, refl)

-- A read past the end: a length that the memory does not have, and one that runs below zero.
over_reads :
    (handle_packet true 45 frame ≡ fault)
    × (call_user 42 (payload_size 41 42) frame ≡ fault)
    × (call_user 42 2 frame ≡ delivered (codes "hi"))
unfolding handle_packet after_headers call_user
over_reads = (refl, refl, refl)

handle_packet-bounds_example : Bounded 43 frame (handle_packet true 43 frame)
handle_packet-bounds_example = handle_packet-bounds true 43 frame (omega arith)

frame-delivered : handle_packet true 43 frame ≡ delivered (codes "h")
unfolding handle_packet after_headers call_user
frame-delivered = refl

abbrev bad_filter : Answers
bad_filter = record {
  create_ok = true;
  activate_ok = true;
  compile_ok = false;
  set_filter_ok = true;
}

handle_closed_example :
    ((times is_close (lifetime bad_filter) ≡ 1)
      ↔ ((◌≡◌ {A = Bool} true false) ⊎ ((◌≡◌ {A = Bool} false true) × (◌≡◌ {A = Bool} true true))))
    × ((times is_close (lifetime bad_filter) ≡ 0) ↔ (
        (◌≡◌ {A = Bool} true true) × ((◌≡◌ {A = Bool} false false) ⊎ (◌≡◌ {A = Bool} true false))))
    × ((after_close false (lifetime bad_filter) ≡ true) ↔ (◌≡◌ {A = Bool} true false))
handle_closed_example = handle_closed bad_filter refl
