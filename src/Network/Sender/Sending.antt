-- ===== src/Network/Sender/Sending.antt =====
-- What a caller of `send` in include/network/udp_sender.h may conclude.
use fix_feed_simulator.Prelude.{ℕ, ◌≡◌, ◌≢◌, ◌↔◌, ◌⊎◌, refl, arith, length}
use fix_feed_simulator.Prelude.Bytes.{Bytes}
use fix_feed_simulator.Network.Sender.{
  enobufs, eagain, ewouldblock, hard, SendAnswer, sent, failed, complete, partial, hard_error,
  throws, send,
}

-- `send` throws exactly where the kernel's buffer is full, and returns in silence exactly where the
-- kernel took the whole datagram. At any other error, and where the kernel took another number of
-- bytes, it prints a line and returns as if all were sent.
pub send_lem :
    (bytes : Bytes) (a : SendAnswer)
    → ((send bytes a ≡ throws)
        ↔ ((a ≡ failed enobufs) ⊎ (a ≡ failed eagain) ⊎ (a ≡ failed ewouldblock)))
      × ((send bytes a ≡ complete) ↔ (a ≡ sent (length bytes)))
      × ((send bytes a ≡ hard_error) ↔ (a ≡ failed hard))
      × ((send bytes a ≡ partial) ↔ ((n : ℕ) × (a ≡ sent n) × (n ≢ length bytes)))
unfolding send
send_lem bytes (failed enobufs) = ground arith
send_lem bytes (failed eagain) = ground arith
send_lem bytes (failed ewouldblock) = ground arith
send_lem bytes (failed hard) = ground arith
send_lem bytes (sent n) = (
  ground arith,
  ground arith,
  ground arith,
  ((λ e. (n, refl, λ same. ground arith)), λ (m, same, ne). ground arith),
)
