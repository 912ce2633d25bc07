-- ===== src/Dashboard/Receiver.antt =====
-- dashboard.py: `network_receive_thread` and the variables that it shares with the other threads.
-- What the socket and the clock answer is an argument.
use fix_feed_simulator.Prelude.{
  ℕ, ◌+◌, ◌-◌, List, [], ◌∷◌, ◌++◌, Bool, ◌&&◌, not, Option, none, some, if◌then◌else◌, length,
  take, replicate,
}
use fix_feed_simulator.Prelude.Bytes.{Bytes, codes}
use fix_feed_simulator.Fix.Decimal.{to_string}
use fix_feed_simulator.Market.Double.{Double}
use fix_feed_simulator.Dashboard.Text.{Text, append_bounded}
use fix_feed_simulator.Dashboard.Parser.{
  Reading, Parsed, Outcome, parsed, failed, parse_fix_message,
}

abbrev pub receive_buffer_size : ℕ
receive_buffer_size = 4096

abbrev pub log_lines : ℕ
log_lines = 12

pub record SocketAnswers : Type 0 where
  pub socket_ok : Bool
  pub reuse_address_ok : Bool
  pub has_reuse_port : Bool
  pub reuse_port_ok : Bool
  pub bind_ok : Bool
  pub join_ok : Bool

-- `uncaught` is an exception that ends the thread, the others but `listening` return with a line
-- printed.
pub data Opened : Type 0 where
  listening : Opened
  bind_error : Opened
  join_error : Opened
  uncaught : Opened

-- An error of `setsockopt` is no `AttributeError`, so that it is not caught there.
unfoldable pub open_socket : SocketAnswers → Opened
open_socket a =
    if not a.socket_ok
    then uncaught
    else if not a.reuse_address_ok
    then uncaught
    else if a.has_reuse_port && not a.reuse_port_ok
    then uncaught
    else if not a.bind_ok
    then bind_error
    else if not a.join_ok
    then join_error
    else listening

-- The globals. The plots' `price_history` and `throughput_history` are the metrics thread's.
pub record Shared {ℓ} (F : Type ℓ) : Type ℓ where
  pub packet_counter : ℕ
  pub current_mid_price : F
  pub log_history : List Text

-- What a turn of the loop gets: no datagram within the second, one with the time of day as a text,
-- or an exception.
pub data Turn : Type 0 where
  timeout : Turn
  datagram : Bytes → Text → Turn
  failure : Turn

-- How the loop ends: `running_flag` is found false, or an exception breaks it.
pub data Ending : Type 0 where
  stopped : Ending
  broken : Ending

-- `{text:<width}`
abbrev pub left_justified : ℕ → Text → Text
left_justified width text = text ++ replicate (width - length text) b' '

abbrev pub get_or_default : Option Text → Text → Text
get_or_default none text = text
get_or_default (some text) default = text

module _ {ℓ} {F : Type ℓ} (d : Double F) where
  -- Python's `{price:.2f}` writes what `std::format` writes.
  unfoldable pub quote_line : Text → Parsed F → Text
  quote_line timestamp p =
      codes "["
      ++ timestamp
      ++ codes "] "
      ++ left_justified 4 (get_or_default p.symbol (codes "???"))
      ++ codes " | BID "
      ++ d.format2 p.bid_price
      ++ codes " ("
      ++ to_string p.bid_size
      ++ codes ") x ASK "
      ++ d.format2 p.ask_price
      ++ codes " ("
      ++ to_string p.ask_size
      ++ codes ")"

  unfoldable pub raw_line : Text → Text → Text
  raw_line timestamp raw_message =
      codes "[" ++ timestamp ++ codes "] RAW: " ++ take 50 raw_message ++ codes "..."

  unfoldable pub log_line : Text → Outcome F → Text
  log_line timestamp failed = raw_line timestamp []
  log_line timestamp (parsed p) =
      if d.gt_zero p.bid_price && d.gt_zero p.ask_price
      then quote_line timestamp p
      else raw_line timestamp p.raw_message

  abbrev pub mid_or : F → Outcome F → F
  mid_or current failed = current
  mid_or current (parsed p) = elim p.mid_price [ none ↦ current | some mid ↦ mid ]

  -- The body of the loop once a datagram is there.
  unfoldable pub take_datagram : Reading F → Bytes → Text → Shared F → Shared F
  take_datagram python message timestamp s =
      let raw = take receive_buffer_size message in
      let outcome = parse_fix_message d python raw in
      record {
        packet_counter = s.packet_counter + 1;
        current_mid_price = mid_or s.current_mid_price outcome;
        log_history = append_bounded log_lines s.log_history (log_line timestamp outcome);
      }

  -- One turn for each time that `running_flag` is found true.
  unfoldable pub receive_loop : Reading F → List Turn → Shared F → Shared F × Ending
  receive_loop python [] s = (s, stopped)
  receive_loop python (timeout ∷ turns) s = receive_loop python turns s
  receive_loop python (datagram message timestamp ∷ turns) s =
      receive_loop python turns (take_datagram python message timestamp s)
  receive_loop python (failure ∷ turns) s = (s, broken)

  -- `none` is a thread that ended before its loop.
  unfoldable pub network_receive_thread :
      Reading F → SocketAnswers → List Turn → Shared F → Shared F × Option Ending
  network_receive_thread python a turns s = elim (open_socket a) [
    | listening ↦ (let (s', ending) = receive_loop python turns s in (s', some ending))
    | bind_error ↦ (s, none)
    | join_error ↦ (s, none)
    | uncaught ↦ (s, none)
  ]
