-- ===== src/Network/Capturer/Opening.antt =====
-- What becomes of the libpcap handle that the constructor in
-- include/network/packet_capturer.h creates.
use fix_feed_simulator.Prelude.{
  ℕ, ◌+◌, ◌≡◌, ◌↔◌, ◌⊎◌, arith, List, [], ◌∷◌, ◌++◌, Bool, true, false, ◌||◌, ◌&&◌, if◌then◌else◌,
}
use fix_feed_simulator.Network.Capturer.{
  PcapCall, free_code, close, Answers, open_capturer, destroy_capturer,
}

-- Whether a call is `pcap_close`, and whether it is `pcap_freecode`.
abbrev pub is_close : PcapCall → Bool
is_close close = true
is_close _ = false

abbrev pub is_free_code : PcapCall → Bool
is_free_code free_code = true
is_free_code _ = false

abbrev pub times : (PcapCall → Bool) → List PcapCall → ℕ
times p [] = 0
times p (c ∷ calls) = (if p c then 1 else 0) + times p calls

-- A call on the handle after it was closed.
abbrev pub after_close : Bool → List PcapCall → Bool
after_close closed [] = false
after_close closed (c ∷ calls) = closed || after_close (is_close c) calls

-- All calls from the construction to the end of the object.
abbrev pub lifetime : Answers → List PcapCall
lifetime a = (open_capturer a).0 ++ destroy_capturer (open_capturer a).1

-- A handle that was created is closed exactly once if it cannot be activated or the filter is both
-- compiled and set, and never if the filter cannot be compiled or set on an active handle; and it is
-- used after it was closed exactly if it cannot be activated: the error text is asked for too late.
pub handle_closed :
    (a : Answers)
    → a.create_ok ≡ true
    → ((times is_close (lifetime a) ≡ 1)
        ↔ ((a.activate_ok ≡ false) ⊎ ((a.compile_ok ≡ true) × (a.set_filter_ok ≡ true))))
      × ((times is_close (lifetime a) ≡ 0)
          ↔ ((a.activate_ok ≡ true) × ((a.compile_ok ≡ false) ⊎ (a.set_filter_ok ≡ false))))
      × ((after_close false (lifetime a) ≡ true) ↔ (a.activate_ok ≡ false))
unfolding open_capturer destroy_capturer
handle_closed a created = ground arith

-- A compiled filter program is freed once, whether it could be set or not.
pub filter_freed :
    (a : Answers)
    → times is_free_code (lifetime a)
      ≡ (if a.create_ok && (a.activate_ok && a.compile_ok) then 1 else 0)
unfolding open_capturer destroy_capturer
filter_freed a = ground arith
