-- ===== src/Dashboard/Log.antt =====
-- What the receiver thread of dashboard.py has counted, shown and logged when its loop ends.
use fix_feed_simulator.Prelude.{
  ℕ, ◌+◌, ◌-◌, ◌≤◌, ◌≡◌, sym, ap, ap₂, ◌∙◌, arith, List, [], ◌∷◌, ◌++◌, append_assoc, append-nil,
  length, take, drop,
}
use fix_feed_simulator.Prelude.Bytes.{Bytes}
use fix_feed_simulator.Market.Double.{Double}
use fix_feed_simulator.Dashboard.Text.{Text}
use fix_feed_simulator.Dashboard.Bounded.{latest, append_bounded-latest}
use fix_feed_simulator.Dashboard.Parser.{Reading, Outcome, parse_fix_message}
use fix_feed_simulator.Dashboard.Receiver.{
  receive_buffer_size, log_lines, Shared, Turn, timeout, datagram, failure, log_line, mid_or,
  take_datagram, receive_loop,
}

-- The datagrams that come before an exception, with their times.
abbrev pub heard : List Turn → List (Bytes × Text)
heard [] = []
heard (timeout ∷ turns) = heard turns
heard (datagram message timestamp ∷ turns) = (message, timestamp) ∷ heard turns
heard (failure ∷ turns) = []

module _ {ℓ} {F : Type ℓ} (d : Double F) (python : Reading F) where
  abbrev pub outcome_of : Bytes → Outcome F
  outcome_of message = parse_fix_message d python (take receive_buffer_size message)

  abbrev pub lines_of : List (Bytes × Text) → List Text
  lines_of [] = []
  lines_of ((message, timestamp) ∷ more) = log_line d timestamp (outcome_of message) ∷ lines_of more

  abbrev pub mid_after : F → List (Bytes × Text) → F
  mid_after current [] = current
  mid_after current ((message, timestamp) ∷ more) =
      mid_after (mid_or d current (outcome_of message)) more

  -- All of the lines ever written would be `lines`.
  abbrev pub after : ℕ → F → List Text → Shared F
  after count mid lines = record {
    packet_counter = count;
    current_mid_price = mid;
    log_history = latest log_lines lines;
  }

  receive_loop-after :
      (turns : List Turn) (count : ℕ) (mid : F) (lines : List Text)
      → (receive_loop d python turns (after count mid lines)).0
        ≡ after
            (count + length (heard turns))
            (mid_after mid (heard turns))
            (lines ++ lines_of (heard turns))
  unfolding receive_loop take_datagram
  receive_loop-after [] count mid lines =
      ap₂ (λ n l. after n mid l) (omega arith) (sym (append-nil lines))
  receive_loop-after (timeout ∷ turns) count mid lines = receive_loop-after turns count mid lines
  receive_loop-after (datagram message timestamp ∷ turns) count mid lines =
      let line = log_line d timestamp (outcome_of message) in
      let mid' = mid_or d mid (outcome_of message) in
      ap
        (λ log.
          (receive_loop d python turns
            (record { packet_counter = count + 1; current_mid_price = mid'; log_history = log })).0)
        (append_bounded-latest log_lines lines line)
      ∙ receive_loop-after turns (count + 1) mid' (lines ++ line ∷ [])
      ∙ ap₂ (λ n l. after n (mid_after mid' (heard turns)) l) (omega arith)
          (append_assoc lines (line ∷ []) (lines_of (heard turns)))
  receive_loop-after (failure ∷ turns) count mid lines =
      ap₂ (λ n l. after n mid l) (omega arith) (sym (append-nil lines))

  -- However the loop ends, each datagram before that was counted, the price shown is the middle of
  -- the last of them that has one, and the log holds the lines of the last twelve, the oldest first
  -- and those that it held before in front.
  pub receive_loop_lem :
      (turns : List Turn) (s : Shared F)
      → length s.log_history ≤ log_lines
      → (receive_loop d python turns s).0
        ≡ after
            (s.packet_counter + length (heard turns))
            (mid_after s.current_mid_price (heard turns))
            (s.log_history ++ lines_of (heard turns))
  receive_loop_lem turns s short =
      let kept : 0 ≡ length s.log_history - log_lines = omega (arith, short) in
      let whole : s ≡ after s.packet_counter s.current_mid_price s.log_history =
        ap
          (λ k. record {
            packet_counter = s.packet_counter;
            current_mid_price = s.current_mid_price;
            log_history = drop k s.log_history;
          })
          kept in
      ap (λ t. (receive_loop d python turns t).0) whole
      ∙ receive_loop-after turns s.packet_counter s.current_mid_price s.log_history
