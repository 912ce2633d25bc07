-- ===== src/Market/Size.antt =====
-- How long the messages of include/market/ are, as include/fix/message.h builds them.
use fix_feed_simulator.Prelude.{
  ℕ, ◌+◌, ◌%◌, ◌<◌, ◌≤◌, ap, arith, List, [], ◌∷◌, ◌++◌, All, length, length-append,
}
use fix_feed_simulator.Prelude.Bytes.{Bytes, codes}
use fix_feed_simulator.Fix.Decimal.{decimal, padded, length-decimal_le, length-padded}
use fix_feed_simulator.Fix.Message.{
  soh, FixMessage, clear_body, add_fields, accumulate, framed, finalize,
}
use fix_feed_simulator.Fix.RoundTrip.{framed_lem, trailer}
use fix_feed_simulator.Fix.Fields.{encoded, add_fields-body, add_fields-begin}
use fix_feed_simulator.Market.Double.{Double}
use fix_feed_simulator.Market.Tick.{MarketTick}
use fix_feed_simulator.Market.Snapshot.{encode, snapshot, encode-add_fields}

-- Room for the fields: three digits of a tag, two separators, and the value.
abbrev room : List (ℕ × Bytes) → ℕ
room [] = 0
room ((tag, value) ∷ fields) = 5 + length value + room fields

length-encoded_le :
    (fields : List (ℕ × Bytes))
    → All (λ (f : ℕ × Bytes). f.0 < 1000) fields
    → length (encoded fields) ≤ room fields
unfolding encoded
length-encoded_le [] h = omega arith
length-encoded_le ((tag, value) ∷ fields) (small, others) = omega (
  arith,
  length-append (decimal tag ++ b'=' ∷ value) (soh ∷ encoded fields),
  length-append (decimal tag) (b'=' ∷ value),
  length-decimal_le 2 tag small,
  length-encoded_le fields others,
)

-- Frame and trailer take at most 18 bytes, for a body below 10000 bytes.
length-finalize_le :
    (m : FixMessage)
    → length m.body_buffer < 10000
    → length (finalize m).1 ≤ length m.begin_string + length m.body_buffer + 18
unfolding finalize
length-finalize_le m small =
    let n = length m.body_buffer in
    let sum = accumulate (framed m) % 256 in
    let tail = trailer m in
    omega (
      arith,
      ap length (framed_lem m tail),
      length-append m.begin_string
          (soh ∷ (codes "9=" ++ (decimal n ++ soh ∷ (m.body_buffer ++ tail)))),
      length-append (decimal n) (soh ∷ (m.body_buffer ++ tail)),
      length-append m.body_buffer tail,
      length-append (padded sum) (soh ∷ []),
      length-decimal_le 3 n small,
      length-padded sum (omega arith),
    )

module _ {ℓ} {F : Type ℓ} (d : Double F) where
  -- The bytes of a tick that are not fixed: the symbol and the two prices, as they are printed.
  abbrev pub text_length : MarketTick F → ℕ
  text_length tick = length tick.symbol + length (d.format2 tick.bid) + length (d.format2 tick.ask)

  -- The message of a tick with sizes below 1000, whatever message the builder held before, is no
  -- longer than begin string, symbol, the two prices as they are printed, and 73 bytes, if symbol
  -- and printed prices have fewer than 9000 bytes together.
  pub length-encode_le :
      (message : FixMessage) (tick : MarketTick F)
      → text_length tick < 9000
      → tick.bid_size < 1000
      → tick.ask_size < 1000
      → length (encode d message tick).1 ≤ length message.begin_string + text_length tick + 73
  unfolding clear_body snapshot
  length-encode_le message tick small bid ask =
      let m = add_fields (clear_body message) (snapshot d tick) in
      let body = length-encoded_le (snapshot d tick) (omega arith) in
      let built : length m.body_buffer ≤ text_length tick + 55 = omega (
        arith,
        ap length (add_fields-body (snapshot d tick) (clear_body message)),
        body,
        length-decimal_le 2 tick.bid_size bid,
        length-decimal_le 2 tick.ask_size ask,
      ) in
      omega (
        arith,
        ap length (encode-add_fields d message tick),
        length-finalize_le m (omega (arith, built, small)),
        built,
        ap length (add_fields-begin (snapshot d tick) (clear_body message)),
      )
