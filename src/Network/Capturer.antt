-- ===== src/Network/Capturer.antt =====
-- include/network/packet_capturer.h: `PacketCapturer`. libpcap is not part of the repository: its
-- answers to the calls of the constructor, and the packets that its loop hands over, are arguments.
pub mod Frames
pub mod Opening
mod Tests
use fix_feed_simulator.Prelude.{
  ℕ, ◌+◌, ◌-◌, ◌*◌, ◌%◌, List, [], ◌∷◌, ◌++◌, Bool, true, false, ◌&&◌, Option, none, some, take,
  drop, length, get_elem?, ltb, if◌then◌else◌, bit_and,
}
use fix_feed_simulator.Prelude.Bytes.{Bytes}
use fix_feed_simulator.Prelude.Words.{size_mod}

-- What comes of one packet: a read past the memory of the packet, by the handler or by the callback
-- with what the handler gave it; the message about a truncated packet; a packet with nothing to hand
-- over; or a call of the user's callback.
pub data Outcome : Type 0 where
  fault truncated ignored : Outcome
  delivered : (payload : Bytes) → Outcome

-- Ethernet and UDP headers have a fixed length.
abbrev pub eth_header_len : ℕ
eth_header_len = 14

abbrev pub udp_header_len : ℕ
udp_header_len = 8

-- `(*ipPacket & 0x0F) * 4`, as a `uint8_t`
abbrev pub ip_header_len : ℕ → ℕ
ip_header_len first = bit_and first 0x0f * 4 % 256

-- `header->caplen - totalHeaderLen`, the `size_t` of a 32-bit length and a length of headers.
abbrev pub payload_size : ℕ → ℕ → ℕ
payload_size caplen total_header_len =
    if ltb caplen total_header_len
    then caplen + size_mod - total_header_len
    else caplen - total_header_len

-- The callback is told that `size` bytes can be read at `offset`, and reads them.
unfoldable pub call_user : ℕ → ℕ → Bytes → Outcome
call_user offset size packet =
    if ltb (length packet) (offset + size)
    then fault
    else delivered (take size (drop offset packet))

unfoldable pub after_headers : Bool → ℕ → Bytes → ℕ → Outcome
after_headers has_callback caplen packet total_header_len =
    if ltb caplen total_header_len
    then truncated
    else (let size = payload_size caplen total_header_len in
        if has_callback && ltb 0 size then call_user total_header_len size packet else ignored)

-- The packet is the memory that may be read, `caplen` the field of its `pcap_pkthdr`.
unfoldable pub handle_packet : Bool → ℕ → Bytes → Outcome
handle_packet has_callback caplen packet = elim (get_elem? packet eth_header_len) [
  | none ↦ fault
  | some first ↦
      after_headers has_callback caplen packet
        (eth_header_len + ip_header_len first + udp_header_len)
]

-- `startCapture` sets the callback; the loop hands over packet after packet, each with `caplen`
-- captured bytes.
unfoldable pub start_capture : List (ℕ × Bytes) → List Outcome
start_capture [] = []
start_capture ((caplen, packet) ∷ rest) = handle_packet true caplen packet ∷ start_capture rest

-- The calls of the constructor to libpcap, in order.
pub data PcapCall : Type 0 where
  create activate geterr compile set_filter free_code close : PcapCall
  set_snaplen set_promisc set_timeout : ℕ → PcapCall

-- What libpcap answers: whether each call succeeds.
pub record Answers : Type 0 where
  pub create_ok : Bool
  pub activate_ok : Bool
  pub compile_ok : Bool
  pub set_filter_ok : Bool

-- The constructor ends with the handle in its owner, or throws.
pub data Opened : Type 0 where
  owned create_failed activate_failed compile_failed set_filter_failed : Opened

unfoldable pub open_capturer : Answers → List PcapCall × Opened
open_capturer a =
    if a.create_ok
    then (let options =
          create ∷ set_snaplen 1518 ∷ set_promisc 1 ∷ set_timeout 1000 ∷ activate ∷ [] in
        if a.activate_ok
        then (if a.compile_ok
            then (if a.set_filter_ok
                then (options ++ compile ∷ set_filter ∷ free_code ∷ [], owned)
                else (options ++ compile ∷ set_filter ∷ free_code ∷ geterr ∷ [], set_filter_failed))
            else (options ++ compile ∷ geterr ∷ [], compile_failed))
        else (options ++ close ∷ geterr ∷ [], activate_failed))
    else (create ∷ [], create_failed)

-- The destructor: the deleter closes the handle, if there is one.
unfoldable pub destroy_capturer : Opened → List PcapCall
destroy_capturer owned = close ∷ []
destroy_capturer _ = []
