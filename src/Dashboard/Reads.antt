-- ===== src/Dashboard/Reads.antt =====
-- What dashboard.py makes of the messages of include/market/.
use fix_feed_simulator.Prelude.{
  length, ℕ, ◌≤◌, ◌≡◌, refl, sym, ap, subst, ◌∙◌, arith, [], ◌∷◌, ◌++◌, All, none, some,
}
use fix_feed_simulator.Prelude.Bytes.{Bytes, codes, pos}
use fix_feed_simulator.Fix.Decimal.{decimal, decimal-IsDigit}
use fix_feed_simulator.Fix.Message.{soh, FixMessage, clear_body, add_fields}
use fix_feed_simulator.Fix.Receiver.{split_at}
use fix_feed_simulator.Fix.Fields.{encoded, add_fields-body, add_fields-begin}
use fix_feed_simulator.Market.Double.{Double}
use fix_feed_simulator.Market.Tick.{MarketTick}
use fix_feed_simulator.Market.Snapshot.{encode, snapshot, encode-add_fields}
use fix_feed_simulator.Dashboard.Text.{Text, IsAscii, decode_ascii, split, replace, same}
use fix_feed_simulator.Dashboard.Parser.{
  Reading, Parsed, parsed, visit, walk, take_field, with_mid, defaults, parse_fix_message,
}
use fix_feed_simulator.Dashboard.Layout.{
  joined, IsPart, split-joined, joined-IsAscii, parts, finalize-parts, digits-IsPart, parts-IsPart,
}

-- Python reads the price texts as the numbers that `value` says, and decimal digits as their number.
pub record Understands {ℓ} {F : Type ℓ} (d : Double F) (python : Reading F) (value : F → F)
    : Type ℓ where
  pub part : (x : F) → IsPart (d.format2 x)
  pub short : (x : F) → length (d.format2 x) ≤ 1000
  pub float : (x : F) → python.float (d.format2 x) ≡ some (value x)
  pub int : (n : ℕ) → python.int (decimal n) ≡ some (pos n)

module _ {ℓ} {F : Type ℓ} (d : Double F) (python : Reading F) (value : F → F) where
  -- What the loop has read of such a message, the middle of the prices aside.
  abbrev pub read : Text → MarketTick F → Parsed F
  read text tick = record {
    raw_message = replace soh b'|' text;
    bid_price = value tick.bid;
    bid_size = pos tick.bid_size;
    ask_price = value tick.ask;
    ask_size = pos tick.ask_size;
    message_type = some (codes "W");
    symbol = some tick.symbol;
    mid_price = none;
  }

  -- The dictionary that belongs to a tick, with its message.
  abbrev pub view : Bytes → MarketTick F → Parsed F
  view message tick = with_mid d (read message tick)

  module _ (know : Understands d python value) where
    walk-parts :
        (begin_string : Bytes) (n sum : ℕ) (tick : MarketTick F) (text : Text)
        → walk python
            (record { current_entry_type = none; result = defaults d text })
            (parts begin_string n (snapshot d tick) sum ++ [] ∷ [])
          ≡ some (record { current_entry_type = some (codes "1"); result = read text tick })
    unfolding walk visit take_field snapshot split_at same decimal
    walk-parts begin_string n sum tick text =
        rw
          (know.float tick.bid, know.int tick.bid_size, know.float tick.ask, know.int tick.ask_size)
          refl

    fields-IsPart :
        (tick : MarketTick F)
        → IsPart tick.symbol
        → All (λ (f : ℕ × Bytes). IsPart f.1) (snapshot d tick)
    unfolding snapshot
    fields-IsPart tick symbol =
        let number = λ (n : ℕ). digits-IsPart (decimal n) (decimal-IsDigit n) in
        (
          omega arith,
          (
            symbol,
            (
              omega arith,
              (
                omega arith,
                (
                  know.part tick.bid,
                  (
                    number tick.bid_size,
                    (omega arith, (know.part tick.ask, (number tick.ask_size, tt))),
                  ),
                ),
              ),
            ),
          ),
        )

    read_back :
        (message : Bytes) (begin_string : Bytes) (n sum : ℕ) (tick : MarketTick F)
        → IsPart begin_string
        → IsPart tick.symbol
        → message ≡ joined (parts begin_string n (snapshot d tick) sum)
        → parse_fix_message d python message ≡ parsed (view message tick)
    unfolding parse_fix_message
    read_back message begin_string n sum tick begin symbol same =
        let pieces = parts begin_string n (snapshot d tick) sum in
        let clean =
          parts-IsPart begin_string n (snapshot d tick) sum begin (fields-IsPart tick symbol) in
        let ascii : IsAscii message = subst IsAscii (sym same) (joined-IsAscii pieces clean) in
        let pieced : split soh message ≡ pieces ++ [] ∷ [] =
          ap (split soh) same ∙ split-joined pieces clean in
        rw (decode_ascii message ascii, pieced, walk-parts begin_string n sum tick message) refl

    -- The dashboard reads from the message that the consumer builds of a tick, whatever message the
    -- builder held before, symbol, prices and sizes of the tick and the kind of message, and
    -- computes the middle of the prices if both are above zero, if begin string, symbol and
    -- formatted prices are ASCII without a separator, the prices of at most 1000 bytes, and Python
    -- reads the texts of numbers as the numbers.
    pub parse-encode :
        (message : FixMessage) (tick : MarketTick F)
        → IsPart message.begin_string
        → IsPart tick.symbol
        → let bytes = (encode d message tick).1 in
          parse_fix_message d python bytes ≡ parsed (view bytes tick)
    unfolding clear_body encoded
    parse-encode message tick begin symbol =
        let m = add_fields (clear_body message) (snapshot d tick) in
        let built =
          encode-add_fields d message tick
          ∙ finalize-parts m (snapshot d tick)
              (add_fields-body (snapshot d tick) (clear_body message)) in
        read_back _ m.begin_string _ _ tick
          (subst IsPart (sym (add_fields-begin (snapshot d tick) (clear_body message))) begin)
          symbol built
