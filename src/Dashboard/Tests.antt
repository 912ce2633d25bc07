-- ===== src/Dashboard/Tests.antt =====
-- dashboard.py at work, with the concrete arithmetic.
use mathlib.Core.List.Memᴰ
use fix_feed_simulator.Prelude.{
  ◌+◌, ◌≤◌, ◌≡◌, refl, ap, arith, List, [], ◌∷◌, ◌++◌, All, some, length, replicate,
}
use fix_feed_simulator.Prelude.Bytes.{codes, ℤ, pos, ◌>>=◌}
use fix_feed_simulator.Fix.Decimal.{
  length-decimal_le, decimal, read_number, decimal-IsDigit, read_number-decimal,
}
use fix_feed_simulator.Fix.Message.{create}
use fix_feed_simulator.Market.Cents.{cents, last_digits}
use fix_feed_simulator.Market.Tick.{MarketTick}
use fix_feed_simulator.Market.Snapshot.{encode}
use fix_feed_simulator.Programs.Sources.{from_rw_nonblocking}
use fix_feed_simulator.Programs.Feed.Sent.{sent_one}
use fix_feed_simulator.Dashboard.Text.{Text, decode}
use fix_feed_simulator.Dashboard.Bounded.{latest}
use fix_feed_simulator.Dashboard.Parser.{Reading, parsed, parse_fix_message}
use fix_feed_simulator.Dashboard.Layout.{digits-IsPart}
use fix_feed_simulator.Dashboard.Reads.{Understands, view, parse-encode}
use fix_feed_simulator.Dashboard.Receiver.{Shared, Turn, timeout, datagram, failure, receive_loop}
use fix_feed_simulator.Dashboard.Log.{heard, lines_of, mid_after, after}
use fix_feed_simulator.Dashboard.Shown.{quote, Logged, feed_to_dashboard}
use fix_feed_simulator.Dashboard.Metrics.{
  throughput_points, Event, packet, price, turn, step, advance, run, initial,
}
use fix_feed_simulator.Dashboard.Rates.{told, between, sum, rates, told_lem}

abbrev digits_only : Reading ℤ
digits_only = record {
  float = λ s. read_number s >>= λ n. some (pos n);
  int = λ s. read_number s >>= λ n. some (pos n);
}

abbrev nine_digits : ℤ → ℤ
nine_digits x = pos (last_digits x)

digits_understood : Understands cents digits_only nine_digits
digits_understood = record {
  part = λ x. digits-IsPart (decimal (last_digits x)) (decimal-IsDigit (last_digits x));
  short = λ x. omega (arith, length-decimal_le 8 (last_digits x) (omega arith));
  float = λ x. rw (read_number-decimal (last_digits x)) refl;
  int = λ n. rw (read_number-decimal n) refl;
}

-- A euro sign, a byte that starts nothing, a sequence that is cut short, and a surrogate.
decode_bytes :
    decode (65 ∷ 0xe2 ∷ 0x82 ∷ 0xac ∷ 0xff ∷ 66 ∷ 0xe2 ∷ 0x82 ∷ 67 ∷ 0xed ∷ 0xa0 ∷ 0x80 ∷ [])
    ≡ 65 ∷ 0x20ac ∷ 66 ∷ 67 ∷ []
unfolding decode
decode_bytes = refl

abbrev tick : MarketTick ℤ
tick = record {
  symbol = codes "ESZ5";
  bid = pos 9998;
  ask = pos 10002;
  bid_size = 77;
  ask_size = 77;
}

parse-encode_example :
    parse_fix_message cents digits_only (encode cents (create (codes "FIX.4.2")) tick).1
    ≡ parsed
        (view cents digits_only nine_digits (encode cents (create (codes "FIX.4.2")) tick).1 tick)
parse-encode_example =
    parse-encode cents digits_only nine_digits digits_understood (create (codes "FIX.4.2")) tick
      (omega arith) (omega arith)

abbrev at_noon : Text
at_noon = codes "12:00:00"

line_of_tick :
    quote cents digits_only nine_digits at_noon tick
    ≡ codes "[12:00:00] ESZ5 | BID 9998 (77) x ASK 10002 (77)"
unfolding decimal
line_of_tick = refl

abbrev turns : List Turn
turns =
    timeout
    ∷ datagram sent_one.message at_noon
    ∷ timeout
    ∷ datagram sent_one.message at_noon
    ∷ failure
    ∷ datagram sent_one.message at_noon
    ∷ []

abbrev fresh : Shared ℤ
fresh = record { packet_counter = 0; current_mid_price = pos 10000; log_history = [] }

feed_to_dashboard_example :
    ((receive_loop cents digits_only turns fresh).0
      ≡ after cents digits_only
          (0 + length (heard turns))
          (mid_after cents digits_only (pos 10000) (heard turns))
          ([] ++ lines_of cents digits_only (heard turns)))
    × All (Logged cents digits_only nine_digits sent_one.last.popped) (heard turns)
unfolding sent_one
feed_to_dashboard_example =
    feed_to_dashboard cents digits_only nine_digits digits_understood
      (λ x. ap decimal (omega arith)) 32767 turns fresh (from_rw_nonblocking sent_one.reach)
      (omega arith) (Memᴰ.head refl, (Memᴰ.head refl, tt))

-- One datagram before the measurement, one behind it.
abbrev schedule : List (Event ℤ)
schedule = packet ∷ turn ∷ packet ∷ price (pos 10010) ∷ turn ∷ turn ∷ turn ∷ []

told_lem_example :
    let start = initial (pos 10000) in
    let s = run schedule start in
    (s.throughput_history
      ≡ latest throughput_points (replicate throughput_points 0 ++ rates (told schedule start)))
    × (sum (told schedule start) + between schedule start ≡ s.previous_packet_counter)
    × (s.previous_packet_counter ≤ s.packet_counter)
unfolding run initial step advance
told_lem_example = told_lem (pos 10000) schedule refl
