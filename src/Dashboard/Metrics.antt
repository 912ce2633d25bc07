-- ===== src/Dashboard/Metrics.antt =====
-- dashboard.py: `metrics_update_thread`, beside the receiver thread. A schedule says which of the two
-- is next; the points at which a global is read or written are steps of their own.
use fix_feed_simulator.Prelude.{ℕ, ◌+◌, ◌-◌, ◌*◌, List, [], ◌∷◌, replicate}
use fix_feed_simulator.Dashboard.Text.{append_bounded}

abbrev pub price_points : ℕ
price_points = 100

abbrev pub throughput_points : ℕ
throughput_points = 50

-- Where the metrics thread is: before `diff`, with `diff` computed, with the throughput appended,
-- with the price appended.
pub data At : Type 0 where
  sleeping : At
  measured : ℕ → At
  counted : At
  drawn : At

-- The counters only grow, and `previous_packet_counter` is never ahead, so that `diff` is a natural
-- number.
pub record Metrics {ℓ} (F : Type ℓ) : Type ℓ where
  pub packet_counter : ℕ
  pub previous_packet_counter : ℕ
  pub current_mid_price : F
  pub throughput_history : List ℕ
  pub price_history : List F
  pub at : At

-- The receiver thread counts a datagram, or sets a new price; or the metrics thread goes on.
pub data Event {ℓ} (F : Type ℓ) : Type ℓ where
  packet : Event F
  price : F → Event F
  turn : Event F

module _ {ℓ} {F : Type ℓ} where
  unfoldable pub advance : At → Metrics F → Metrics F
  advance sleeping s = record s { at = measured (s.packet_counter - s.previous_packet_counter) }
  advance (measured diff) s = record s {
    throughput_history = append_bounded throughput_points s.throughput_history (diff * 10);
    at = counted;
  }
  advance counted s = record s {
    price_history = append_bounded price_points s.price_history s.current_mid_price;
    at = drawn;
  }
  advance drawn s = record s { previous_packet_counter = s.packet_counter; at = sleeping }

  unfoldable pub step : Metrics F → Event F → Metrics F
  step s packet = record s { packet_counter = s.packet_counter + 1 }
  step s (price mid) = record s { current_mid_price = mid }
  step s turn = advance s.at s

  unfoldable pub run : List (Event F) → Metrics F → Metrics F
  run [] s = s
  run (e ∷ es) s = run es (step s e)

  -- The globals as the module sets them: `hundred` is 100.0.
  unfoldable pub initial : F → Metrics F
  initial hundred = record {
    packet_counter = 0;
    previous_packet_counter = 0;
    current_mid_price = hundred;
    throughput_history = replicate throughput_points 0;
    price_history = replicate price_points hundred;
    at = sleeping;
  }
