-- ===== src/Network/Sender/Tests.antt =====
-- The sender at concrete answers of the system.
use fix_feed_simulator.Prelude.{ℕ, ◌≡◌, refl, [], ◌∷◌, Bool, true, false, some}
use fix_feed_simulator.Prelude.Bytes.{codes}
use fix_feed_simulator.Network.Sender.{
  Answers, htons, construct, move_construct, enobufs, hard, sent, failed, complete, partial,
  hard_error, throws, send,
}
use fix_feed_simulator.Network.Sender.Ownership.{
  World, Reach, here, later, builds, moves, fd_of, descriptors_owned,
}

abbrev all_well : Answers
all_well = record {
  socket = some 3;
  reuse_ok = true;
  send_buffer_ok = false;
  interface_addr = some 1;
  multicast_if_ok = true;
  multicast_addr = some 2;
}

abbrev no_interface : Answers
no_interface = record all_well { multicast_if_ok = false }

abbrev none_open : ℕ → Bool
none_open _ = false

port_bytes : htons 9999 ≡ 39 ∷ 15 ∷ []
port_bytes = refl

warned_only : (construct all_well 9999 none_open).1 ≡ true
unfolding construct
warned_only = refl

sends :
    (send (codes "ab") (sent 2) ≡ complete)
    × (send (codes "ab") (sent 1) ≡ partial)
    × (send (codes "ab") (failed enobufs) ≡ throws)
    × (send (codes "ab") (failed hard) ≡ hard_error)
unfolding send
sends = (refl, refl, refl, refl)

record Run : Type 0 where
  last : World
  reach : Reach last

-- Built at address 0, moved to address 1.
moved : Run
unfolding construct move_construct
moved = record {
  last = _;
  reach =
      later (later here (builds 0 9999 all_well _ true _ refl (λ fd given. refl) refl))
        (moves 0 1 _ _ _ refl refl refl);
}

descriptors_owned_example :
    ((i fd : ℕ) → fd_of (moved.last.object i) ≡ some fd → moved.last.fds fd ≡ true)
    × ((i j fd : ℕ)
        → fd_of (moved.last.object i) ≡ some fd
        → fd_of (moved.last.object j) ≡ some fd
        → i ≡ j)
    × ((fd : ℕ) → moved.last.fds fd ≡ true → (i : ℕ) × (fd_of (moved.last.object i) ≡ some fd))
descriptors_owned_example = descriptors_owned moved.reach
