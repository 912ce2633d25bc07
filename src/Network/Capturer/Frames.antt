-- ===== src/Network/Capturer/Frames.antt =====
-- What include/network/packet_capturer.h hands to the callback.
use fix_feed_simulator.Prelude.{
  ℕ, ◌+◌, ◌-◌, ◌*◌, ◌%◌, ◌≤◌, ◌<◌, ◌≡◌, ◌≢◌, ◌↔◌, refl, sym, ap, ◌∙◌, arith, [], ◌∷◌, ◌++◌,
  append_assoc, Bool, Bool-cases, true, false, some, inl, inr, length, length-append, length-drop,
  take_all, length-take_of_le, take-append-drop, drop-append, get_elem?-none, get_elem?-cases,
  get_elem?-append, length_pos, take, drop, get_elem?, ltb, if◌then◌else◌, ◌&&◌, ap₂,
}
use fix_feed_simulator.Prelude.Bytes.{Bytes}
use fix_feed_simulator.Prelude.Words.{size_mod, sub_size, bit_and-mask}
use fix_feed_simulator.Network.Capturer.{
  Outcome, fault, truncated, ignored, delivered, ip_header_len, payload_size, call_user,
  after_headers, handle_packet,
}

-- The header length is four times the low half of the byte.
pub ip_header_len_lem : (first : ℕ) → ip_header_len first ≡ first % 16 * 4
ip_header_len_lem first = omega (arith, bit_and-mask 4 first)

-- The length of all headers, for a packet that can be read so far.
abbrev headers_len : ℕ → ℕ
headers_len first = 22 + first % 16 * 4

-- The wrap written out is that of a `size_t`.
payload_size-sub_size :
    (caplen total : ℕ)
    → caplen < size_mod
    → total ≤ size_mod
    → payload_size caplen total ≡ sub_size caplen total
payload_size-sub_size caplen total fits small = ground arith

handle_packet-read :
    (has_callback : Bool) (caplen : ℕ) (packet : Bytes) {first : ℕ}
    → caplen ≤ length packet
    → get_elem? packet 14 ≡ some first
    → let n = headers_len first in
      handle_packet has_callback caplen packet ≡ (
        if ltb caplen n
        then truncated
        else (if has_callback && ltb 0 (caplen - n)
            then delivered (take (caplen - n) (drop n packet))
            else ignored))
unfolding handle_packet after_headers call_user
handle_packet-read has_callback caplen packet {first} captured e =
    let n = headers_len first in
    let total : 14 + ip_header_len first + 8 ≡ n = omega (arith, ip_header_len_lem first) in
    elim (Bool-cases (ltb caplen n)) [
      | inl small ↦ rw (e, handle_packet, total, small) refl
      | inr big ↦
          let within : ltb (length packet) (n + (caplen - n)) ≡ false = ground arith in
          rw (e, handle_packet, total, big, within) refl
    ]

handle_packet-short :
    (has_callback : Bool) (caplen : ℕ) (packet : Bytes)
    → length packet < 15
    → handle_packet has_callback caplen packet ≡ fault
unfolding handle_packet
handle_packet-short has_callback caplen packet h =
    rw (get_elem?-none packet 14 (omega arith), handle_packet)

-- The byte with the header length is read before the length is looked at, so memory of fewer than
-- 15 bytes is read past its end, and no other is if `caplen` is not more than its length.
pub handle_packet-fault :
    (has_callback : Bool) (caplen : ℕ) (packet : Bytes)
    → caplen ≤ length packet
    → (handle_packet has_callback caplen packet ≡ fault) ↔ (length packet < 15)
handle_packet-fault has_callback caplen packet captured = (
  λ e. elim (get_elem?-cases packet 14) [
    | inl short ↦ omega arith
    | inr (first, read, long) ↦
        absurd (ground (arith, handle_packet-read has_callback caplen packet captured read))
  ],
  handle_packet-short has_callback caplen packet,
)

-- From a captured frame of 14 bytes of Ethernet header, an IP header as long as its first byte
-- says, 8 bytes of UDP header and a payload that is not empty, the callback gets the payload: all
-- of it, and nothing else.
pub handle_packet-frame :
    (eth ip udp payload : Bytes) (first : ℕ)
    → length eth ≡ 14
    → length (first ∷ ip) ≡ first % 16 * 4
    → length udp ≡ 8
    → payload ≢ []
    → let frame = eth ++ ((first ∷ ip) ++ (udp ++ payload)) in
      handle_packet true (length frame) frame ≡ delivered payload
handle_packet-frame eth ip udp payload first he hi hu some_payload =
    let headers = eth ++ ((first ∷ ip) ++ udp) in
    let frame = eth ++ ((first ∷ ip) ++ (udp ++ payload)) in
    let read : get_elem? frame 14 ≡ some first =
      ap (get_elem? frame) (sym he) ∙ get_elem?-append eth first (ip ++ (udp ++ payload)) in
    let split : frame ≡ headers ++ payload = simp append_assoc in
    let size : length headers ≡ headers_len first =
      omega (arith, length-append eth ((first ∷ ip) ++ udp), length-append (first ∷ ip) udp) in
    let rest : drop (headers_len first) frame ≡ payload =
      ap₂ drop (sym size) split ∙ drop-append headers payload in
    let whole : length frame ≡ headers_len first + length payload =
      ap length split ∙ omega (arith, length-append headers payload) in
    let left : length frame - headers_len first ≡ length payload = omega arith in
    let all : take (length frame - headers_len first) (drop (headers_len first) frame) ≡ payload =
      rw (rest, left) (take_all (length payload) payload (omega arith)) in
    ground (
      arith,
      handle_packet-read true (length frame) frame (omega arith) read,
      length_pos payload some_payload,
    )

-- What may come of a packet of which `caplen` bytes are captured.
abbrev pub Bounded : ℕ → Bytes → Outcome → Type 0
Bounded caplen packet fault = length packet < 15
Bounded caplen packet truncated = (15 ≤ length packet) × (caplen < 82)
Bounded caplen packet ignored = (15 ≤ length packet) × (22 ≤ caplen)
Bounded caplen packet (delivered payload) =
    (15 ≤ length packet)
    × (0 < length payload)
    × ((headers rest : Bytes) × (packet ≡ headers ++ (payload ++ rest))
        × (length headers + length payload ≡ caplen)
        × (22 ≤ length headers)
        × (length headers ≤ 82))

payload-Bounded :
    (caplen : ℕ) (packet : Bytes) (n : ℕ)
    → 22 ≤ n
    → n ≤ 82
    → n < caplen
    → caplen ≤ length packet
    → Bounded caplen packet (delivered (take (caplen - n) (drop n packet)))
payload-Bounded caplen packet n lo hi more captured =
    let m = caplen - n in
    let rest = drop n packet in
    let head = length-take_of_le n packet in
    let size : length (take m rest) ≡ m =
      length-take_of_le m rest (omega (arith, length-drop n packet)) in
    (
      omega arith,
      omega (arith, size),
      (
        take n packet,
        drop m rest,
        sym (take-append-drop n packet)
            ∙ ap (λ t. take n packet ++ t) (sym (take-append-drop m rest)),
        omega (arith, size, head),
        omega (arith, head),
        omega (arith, head),
      ),
    )

-- With a captured length that the memory of the packet has, whatever the IP header says: if
-- something is read past the end of that memory, by the handler or by the callback with what it was
-- given, then the memory has fewer than 15 bytes; in every other outcome it has 15 or more. What is
-- delivered is not empty and ends where the captured bytes end, after 22 to 82 bytes of headers; a
-- packet taken as truncated has fewer than 82 captured bytes, one with nothing to hand over at
-- least 22.
pub handle_packet-bounds :
    (has_callback : Bool) (caplen : ℕ) (packet : Bytes)
    → caplen ≤ length packet
    → Bounded caplen packet (handle_packet has_callback caplen packet)
handle_packet-bounds has_callback caplen packet captured = elim (get_elem?-cases packet 14) [
  | inl short ↦ rw (handle_packet-short has_callback caplen packet (omega arith)) (omega arith)
  | inr (first, read, long) ↦
      rw (handle_packet-read has_callback caplen packet captured read)
        (branches (headers_len first) (omega arith) (omega arith) (omega arith))
]
  where
    branches :
        (n : ℕ)
        → 22 ≤ n
        → n ≤ 82
        → 15 ≤ length packet
        → Bounded caplen packet (
            if ltb caplen n
            then truncated
            else (if has_callback && ltb 0 (caplen - n)
                then delivered (take (caplen - n) (drop n packet))
                else ignored))
    branches n lo hi long = elim (Bool-cases (ltb caplen n)) [
      | inl small ↦ rw small (long, ground arith)
      | inr big ↦ rw big (elim (Bool-cases (has_callback && ltb 0 (caplen - n))) [
        | inl go ↦ rw go (payload-Bounded caplen packet n lo hi (ground arith) captured)
        | inr stay ↦ rw stay (long, ground arith)
      ])
    ]
