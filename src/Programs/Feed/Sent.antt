-- ===== src/Programs/Feed/Sent.antt =====
-- A run of include/market/market_data_system_rw_nonblocking.h in which one tick is made, queued, taken
-- and sent, for the tests of what is done with its message.
use fix_feed_simulator.Prelude.{◌≡◌, ◌≢◌, refl, arith, [], ◌∷◌, true}
use fix_feed_simulator.Prelude.Bytes.{Bytes, ℤ, pos}
use fix_feed_simulator.Network.Sender.{sent, complete, throws}
use fix_feed_simulator.Network.Sender.Sending.{send_lem}
use fix_feed_simulator.Market.Cents.{cents}
use fix_feed_simulator.Market.NonBlocking.{
  System, produce, push_ok, consume, pop_ok, send_test, send_returns, start, Reach, here, later,
}

pub complete_ne_throws : complete ≢ throws
complete_ne_throws e = cc

pub record Run : Type 0 where
  pub last : System ℤ
  pub reach : Reach cents 32767 true last
  pub message : Bytes
  pub on_wire : last.wire ≡ message ∷ []

unfoldable pub sent_one : Run
unfolding start
sent_one = record {
  last = _;
  reach =
      later
        (later
          (later
            (later
              (later (later here (produce (pos 1) 0 27 refl refl)) (push_ok _ refl (omega arith)))
              (consume refl refl))
            (pop_ok _ [] refl refl))
          (send_test _ refl refl))
        (send_returns _ (sent _) complete refl ((send_lem _ (sent _)).1.1 refl) complete_ne_throws);
  message = _;
  on_wire = refl;
}
