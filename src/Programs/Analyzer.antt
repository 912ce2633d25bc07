-- ===== src/Programs/Analyzer.antt =====
-- src/analyzer_main.cpp: the program that captures packets and prints what they carry. What it
-- writes to standard error is left out.
mod Tests
use fix_feed_simulator.Prelude.{
  ℕ, ◌+◌, ◌*◌, ◌<◌, ◌≤◌, Bool-cases, ltb, ltb→lt, ltb→le, ◌%◌, ◌≡◌, ◌≢◌, ◌↔◌, ◌⊎◌, inl, inr, refl,
  ap, ◌∙◌, arith, List, [], ◌∷◌, ◌++◌, append_assoc, Bool, true, false, Option, none, some, length,
  All, if◌then◌else◌,
}
use fix_feed_simulator.Prelude.Bytes.{Bytes, codes, ◌>>=◌}
use fix_feed_simulator.Fix.Decimal.{decimal}
use fix_feed_simulator.Network.Capturer.{
  Outcome, fault, truncated, ignored, delivered, handle_packet, start_capture, Answers, Opened,
  owned, create_failed, activate_failed, compile_failed, set_filter_failed, open_capturer,
}
use fix_feed_simulator.Network.Capturer.Frames.{handle_packet-frame, handle_packet-fault}

abbrev pub bpf_filter : Bytes
bpf_filter = codes "udp port 9999"

abbrev pub capture_device : Bytes
capture_device = codes "en0"

-- The two lines that the callback prints, the message as it is.
unfoldable pub on_packet_received : Bytes → List Bytes
on_packet_received payload =
    (codes "--- PACKET RECEIVED (" ++ decimal (length payload) ++ codes " bytes) ---")
    ∷ payload
    ∷ []

-- The lines of a captured sequence. Nothing is said of a run in which a packet is read past its end.
unfoldable pub printed : List Outcome → Option (List Bytes)
printed [] = some []
printed (fault ∷ rest) = none
printed (truncated ∷ rest) = printed rest
printed (ignored ∷ rest) = printed rest
printed (delivered payload ∷ rest) =
    printed rest >>= λ lines. some (on_packet_received payload ++ lines)

pub record Output : Type 0 where
  pub lines : List Bytes
  pub status : ℕ

abbrev pub greeting : List Bytes
greeting =
    codes "Starting Packet Analyzer..."
    ∷ (codes "Device: " ++ capture_device)
    ∷ (codes "Filter: " ++ bpf_filter)
    ∷ []

abbrev pub capture_line : Bytes
capture_line = codes "Capture loop starting. Waiting for packets..."

-- The capture loop ends only by an error of its own, and then `main` returns 0; an exception of the
-- constructor makes it return 1.
abbrev pub after_opening : Opened → List (ℕ × Bytes) → Option Output
after_opening owned packets = printed (start_capture packets) >>= λ lines.
    some (record { lines = greeting ++ capture_line ∷ lines; status = 0 })
after_opening _ packets = some (record { lines = greeting; status = 1 })

unfoldable pub main : Answers → List (ℕ × Bytes) → Option Output
main a packets = after_opening (open_capturer a).1 packets

-- A frame as it goes over the wire.
pub record Frame : Type 0 where
  pub eth : Bytes
  pub first : ℕ
  pub ip : Bytes
  pub udp : Bytes
  pub payload : Bytes

abbrev pub bytes_of : Frame → Bytes
bytes_of f = f.eth ++ ((f.first ∷ f.ip) ++ (f.udp ++ f.payload))

abbrev pub IsWhole : Frame → Type 0
IsWhole f =
    (length f.eth ≡ 14)
    × (length (f.first ∷ f.ip) ≡ f.first % 16 * 4)
    × (length f.udp ≡ 8)
    × (f.payload ≢ [])

abbrev pub captured : List Frame → List (ℕ × Bytes)
captured [] = []
captured (f ∷ fs) = (length (bytes_of f), bytes_of f) ∷ captured fs

abbrev pub shown : List Frame → List Bytes
shown [] = []
shown (f ∷ fs) = on_packet_received f.payload ++ shown fs

printed-captured :
    (fs : List Frame) → All IsWhole fs → printed (start_capture (captured fs)) ≡ some (shown fs)
unfolding printed start_capture
printed-captured [] whole = refl
printed-captured (f ∷ fs) ((he, hi, hu, hp), whole) =
    rw (handle_packet-frame f.eth f.ip f.udp f.payload f.first he hi hu hp)
      (rw (printed-captured fs whole) refl)

abbrev pub IsOpen : Answers → Type 0
IsOpen a =
    (a.create_ok ≡ true) × (a.activate_ok ≡ true) × (a.compile_ok ≡ true) × (a.set_filter_ok ≡ true)

-- If libpcap opens the device and frames arrive whole, with a payload each, the program prints after
-- its greeting, frame by frame, the size of the payload and the payload, and nothing else, and
-- returns 0 when the loop ends.
pub analyzer_shows :
    (a : Answers) (fs : List Frame)
    → IsOpen a
    → All IsWhole fs
    → main a (captured fs)
      ≡ some (record { lines = greeting ++ capture_line ∷ shown fs; status = 0 })
unfolding main open_capturer
analyzer_shows a fs (c, t, p, f) whole = rw (c, t, p, f, printed-captured fs whole) refl

-- Packets of which all is captured.
abbrev pub uncut : List Bytes → List (ℕ × Bytes)
uncut [] = []
uncut (packet ∷ packets) = (length packet, packet) ∷ uncut packets

abbrev pub HasShort : List Bytes → Type 0
HasShort [] = ⊥
HasShort (packet ∷ packets) = (length packet < 15) ⊎ HasShort packets

shown_none {ℓ} :
    {B : Type ℓ} (o : Option (List Bytes)) (f : List Bytes → B)
    → (o >>= λ lines. some (f lines)) ≡ none
    → o ≡ none
shown_none none f e = refl
shown_none (some lines) f e = cc

-- A packet that is not read past its end leaves the rest to be printed.
printed-next :
    (outcome : Outcome) (rest : List Outcome)
    → outcome ≢ fault
    → (printed (outcome ∷ rest) ≡ none) ↔ (printed rest ≡ none)
unfolding printed
printed-next fault rest ne = absurd (ne refl)
printed-next truncated rest ne = (λ e. e, λ e. e)
printed-next ignored rest ne = (λ e. e, λ e. e)
printed-next (delivered payload) rest ne = (shown_none (printed rest) _, λ e. rw e refl)

printed-none :
    (packets : List Bytes) → (printed (start_capture (uncut packets)) ≡ none) ↔ HasShort packets
unfolding start_capture
printed-none [] = unfold printed in (λ e. cc, λ no. absurd no)
printed-none (packet ∷ packets) =
    let outcome = handle_packet true (length packet) packet in
    let others = printed-none packets in
    let (faulty, short) = handle_packet-fault true (length packet) packet (omega arith) in
    elim (Bool-cases (ltb (length packet) 15)) [
      | inl small ↦
          let less = ltb→lt _ _ small in
          (λ e. inl less, λ has. unfold printed in rw (short less) refl)
      | inr big ↦
          let long = ltb→le _ _ big in
          let next =
            printed-next outcome (start_capture (uncut packets))
              (λ e. omega (arith, faulty e, long)) in
          (λ e. inr (others.0 (next.0 e)), λ has. next.1 (later_short long others.1 has))
    ]
  where
    later_short :
        15 ≤ length packet
        → (HasShort packets → printed (start_capture (uncut packets)) ≡ none)
        → HasShort (packet ∷ packets)
        → printed (start_capture (uncut packets)) ≡ none
    later_short long go_on (inl less) = absurd (omega arith)
    later_short long go_on (inr has) = go_on has

-- If libpcap opens the device and no captured packet was cut short, the program reads past the end
-- of a packet, in the handler or in its callback, exactly if one of them has fewer than 15 bytes.
pub analyzer_faults :
    (a : Answers) (packets : List Bytes)
    → IsOpen a
    → (main a (uncut packets) ≡ none) ↔ HasShort packets
unfolding main open_capturer
analyzer_faults a packets (c, t, p, f) =
    rw (c, t, p, f)
      (let (to, from) = printed-none packets in
        (λ e. to (shown_none _ _ e), λ has. rw (from has) refl))
