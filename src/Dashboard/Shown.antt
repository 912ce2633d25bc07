-- ===== src/Dashboard/Shown.antt =====
-- Producer and dashboard together: what dashboard.py logs of the messages of
-- the systems of include/market/.
use mathlib.Core.List.{Memᴰ}
use fix_feed_simulator.Prelude.{
  ℕ, ◌+◌, ◌≤◌, ◌≡◌, refl, sym, subst, ap, ◌∙◌, List, [], ◌∷◌, ◌++◌, Bool, true, false, ◌&&◌, Option,
  All, length, take_all, if◌then◌else◌, arith,
}
use fix_feed_simulator.Prelude.Bytes.{Bytes, codes}
use fix_feed_simulator.Fix.Decimal.{decimal, to_string}
use fix_feed_simulator.Fix.Message.{soh}
use fix_feed_simulator.Market.Double.{Double}
use fix_feed_simulator.Market.Tick.{MarketTick}
use fix_feed_simulator.Market.Size.{length-encode_le}
use fix_feed_simulator.Market.Wire.{Reads, Proper, Tells}
use fix_feed_simulator.Programs.Sources.{Emitted, Emitted-Tells}
use fix_feed_simulator.Programs.Feed.{Tells-Snapshot}
use fix_feed_simulator.Dashboard.Text.{Text, replace}
use fix_feed_simulator.Dashboard.Parser.{Reading, Parsed, parsed, with_mid, parse_fix_message}
use fix_feed_simulator.Dashboard.Layout.{IsPart}
use fix_feed_simulator.Dashboard.Reads.{Understands, read, view, parse-encode}
use fix_feed_simulator.Dashboard.Receiver.{
  receive_buffer_size, log_lines, Shared, Turn, quote_line, raw_line, log_line, receive_loop,
}
use fix_feed_simulator.Dashboard.Log.{
  heard, outcome_of, lines_of, mid_after, after, receive_loop_lem,
}

-- A datagram that is one of the messages.
abbrev pub IsOneOf : List Bytes → Bytes × Text → Type 0
IsOneOf wire (message, timestamp) = Memᴰ message wire

module _ {ℓ} {F : Type ℓ} (d : Double F) (python : Reading F) (value : F → F) where
  -- The line of a tick: its quote, or the start of its message if a price is not above zero.
  abbrev pub quote : Text → MarketTick F → Text
  quote timestamp tick =
      codes "["
      ++ timestamp
      ++ codes "] "
      ++ codes "ESZ5"
      ++ codes " | BID "
      ++ d.format2 tick.bid
      ++ codes " ("
      ++ decimal tick.bid_size
      ++ codes ") x ASK "
      ++ d.format2 tick.ask
      ++ codes " ("
      ++ decimal tick.ask_size
      ++ codes ")"

  abbrev pub line_for : Text → Bytes → MarketTick F → Text
  line_for timestamp message tick =
      if d.gt_zero (value tick.bid) && d.gt_zero (value tick.ask)
      then quote timestamp tick
      else raw_line d timestamp (replace soh b'|' message)

  log_line-mid :
      (timestamp : Text) (both : Bool) (p : Parsed F) (mid : Option F)
      → log_line d timestamp (parsed (if both then record p { mid_price = mid } else p))
        ≡ log_line d timestamp (parsed p)
  unfolding log_line quote_line
  log_line-mid timestamp true p mid = refl
  log_line-mid timestamp false p mid = refl

  module _ (again : (x : F) → d.format2 (value x) ≡ d.format2 x) where
    quote_line-read :
        (timestamp : Text) (message : Bytes) (tick : MarketTick F)
        → Proper tick
        → quote_line d timestamp (read d python value message tick) ≡ quote timestamp tick
    unfolding quote_line to_string
    quote_line-read timestamp message tick named = rw (named.0, again tick.bid, again tick.ask) refl

    log_line-view :
        (timestamp : Text) (message : Bytes) (tick : MarketTick F)
        → Proper tick
        → log_line d timestamp (parsed (view d python value message tick))
          ≡ line_for timestamp message tick
    unfolding with_mid log_line
    log_line-view timestamp message tick named =
        log_line-mid timestamp _ (read d python value message tick) _
        ∙ ap
            (λ l.
              if d.gt_zero (value tick.bid) && d.gt_zero (value tick.ask)
              then l
              else raw_line d timestamp (replace soh b'|' message))
            (quote_line-read timestamp message tick named)

  -- What the dashboard logs of a message, and of which tick.
  abbrev pub Logged : List (MarketTick F) → Bytes × Text → Type ℓ
  Logged ticks (message, timestamp) =
      (tick : MarketTick F) × Memᴰ tick ticks
      × (outcome_of d python message ≡ parsed (view d python value message tick))
      × (log_line d timestamp (outcome_of d python message) ≡ line_for timestamp message tick)

  module _ (know : Understands d python value)
      (again : (x : F) → d.format2 (value x) ≡ d.format2 x) where
    outcome_of-Reads :
        (message : Bytes) (tick : MarketTick F)
        → Reads d message tick
        → outcome_of d python message ≡ parsed (view d python value message tick)
    outcome_of-Reads message tick (_, (builder, begin, named, e)) =
        let ascii_begin : IsPart (codes "FIX.4.2") = omega arith in
        let ascii_name : IsPart (codes "ESZ5") = omega arith in
        let fits : length message ≤ receive_buffer_size = omega (
          arith,
          ap length e,
          ap length begin,
          ap length named.0,
          know.short tick.bid,
          know.short tick.ask,
          length-encode_le d builder tick
              (omega (arith, ap length named.0, know.short tick.bid, know.short tick.ask))
              (omega (arith, named.1)) (omega (arith, named.2)),
        ) in
        let built =
          parse-encode d python value know builder tick (subst IsPart (sym begin) ascii_begin)
            (subst IsPart (sym named.0) ascii_name) in
        ap (parse_fix_message d python) (take_all receive_buffer_size message fits)
        ∙ subst (λ m. parse_fix_message d python m ≡ parsed (view d python value m tick)) (sym e)
            built

    IsOneOf-Logged :
        {ticks : List (MarketTick F)} {wire : List Bytes} (pairs : List (Bytes × Text))
        → Tells d ticks wire
        → All (IsOneOf wire) pairs
        → All (Logged ticks) pairs
    IsOneOf-Logged [] tells fits = tt
    IsOneOf-Logged ((message, timestamp) ∷ pairs) tells (mem, others) =
        let (tick, tick_mem, reads) = Tells-Snapshot d message tells mem in
        let outcome = outcome_of-Reads message tick reads in
        (
          (
            tick,
            tick_mem,
            outcome,
            ap (log_line d timestamp) outcome
                ∙ log_line-view again timestamp message tick reads.1.2,
          ),
          IsOneOf-Logged pairs tells others,
        )

    -- From the price to the dashboard: in every reachable state of any of the four systems, if the
    -- datagrams that the receiver thread gets before its loop ends are messages on the wire of the
    -- system, whichever, in whatever order and however often, then the thread has counted each, its
    -- log holds the lines of the last twelve behind those held before, and each line is the quote of
    -- a tick that the system has taken from its ring, with the texts of its prices as the message
    -- has them and its sizes, or the start of the message if Python reads a price that is not above
    -- zero; if the formatted prices are ASCII without a separator, of at most 1000 bytes, Python
    -- reads the texts of numbers as numbers whose text is the same, and the log held no more than
    -- twelve lines before.
    pub feed_to_dashboard :
        (rand_max : ℕ) {ticks : List (MarketTick F)} {wire : List Bytes} (turns : List Turn)
        (shared : Shared F)
        → Emitted d rand_max ticks wire
        → length shared.log_history ≤ log_lines
        → All (IsOneOf wire) (heard turns)
        → ((receive_loop d python turns shared).0
            ≡ after d python
                (shared.packet_counter + length (heard turns))
                (mid_after d python shared.current_mid_price (heard turns))
                (shared.log_history ++ lines_of d python (heard turns)))
          × All (Logged ticks) (heard turns)
    feed_to_dashboard rand_max turns shared emitted short messages = (
      receive_loop_lem d python turns shared short,
      IsOneOf-Logged (heard turns) (Emitted-Tells d rand_max (λ x. (know.part x).0) emitted)
          messages,
    )
