-- ===== src/Network/Sender.antt =====
-- include/network/udp_sender.h: `UDPMulticastSender`. The system calls are the operating system's:
-- what they answer is an argument, and which descriptors are open is a state.
pub mod Ownership
pub mod Sending
mod Tests
use fix_feed_simulator.Prelude.{
  ℕ, ◌/◌, ◌%◌, ◌≡◌, List, [], ◌∷◌, Bool, true, false, Option, none, some, length, ◌==◌, ◌||◌,
  if◌then◌else◌,
}
use fix_feed_simulator.Prelude.Bytes.{Bytes}

-- Which file descriptors are open.
abbrev pub Descriptors : Type 0
Descriptors = ℕ → Bool

abbrev pub with_fd : Descriptors → ℕ → Bool → Descriptors
with_fd fds fd b i = if fd == i then b else fds i

-- `sockfd_` is `none` where the source has -1. The port is in network order, high byte first.
pub record Sender : Type 0 where
  pub sockfd : Option ℕ
  pub sin_port : Bytes
  pub sin_addr : ℕ

-- What the system calls of the constructor answer; an address is the number that it parses to.
pub record Answers : Type 0 where
  pub socket : Option ℕ
  pub reuse_ok : Bool
  pub send_buffer_ok : Bool
  pub interface_addr : Option ℕ
  pub multicast_if_ok : Bool
  pub multicast_addr : Option ℕ

pub data Failure : Type 0 where
  create_socket set_reuse invalid_interface set_multicast_if invalid_multicast : Failure

pub data Built : Type 0 where
  threw : Failure → Built
  built : Sender → Built

-- `htons`
abbrev pub htons : ℕ → Bytes
htons port = port / 256 % 256 ∷ port % 256 ∷ []

set_destination : Option ℕ → ℕ → ℕ → Descriptors → Descriptors × Built
set_destination none fd port fds = (with_fd fds fd false, threw invalid_multicast)
set_destination (some addr) fd port fds =
    (fds, built (record { sockfd = some fd; sin_port = htons port; sin_addr = addr }))

set_interface : Answers → ℕ → ℕ → Descriptors → Descriptors × Built
unfolding set_destination
set_interface a fd port fds = elim (a.interface_addr) [
  | none ↦ (with_fd fds fd false, threw invalid_interface)
  | some _ ↦
      if a.multicast_if_ok
      then set_destination a.multicast_addr fd port fds
      else (with_fd fds fd false, threw set_multicast_if)
]

-- The constructor: the descriptors after it, whether it warned of a small send buffer, and the
-- object or the exception.
unfoldable pub construct : Answers → ℕ → Descriptors → Descriptors × Bool × Built
unfolding set_interface
construct a port fds = elim (a.socket) [
  | none ↦ (fds, false, threw create_socket)
  | some fd ↦
      let opened = with_fd fds fd true in
      if a.reuse_ok
      then (let (fds', outcome) = set_interface a fd port opened in
          (fds', (if a.send_buffer_ok then false else true), outcome))
      else (with_fd opened fd false, false, threw set_reuse)
]

-- The destructor.
unfoldable pub destroy : Sender → Descriptors → Descriptors
destroy s fds = elim (s.sockfd) [ none ↦ fds | some fd ↦ with_fd fds fd false ]

-- The move constructor: the new object, and what is left of the other.
unfoldable pub move_construct : Sender → Sender × Sender
move_construct other = (
  record { sockfd = other.sockfd; sin_port = other.sin_port; sin_addr = other.sin_addr },
  record other { sockfd = none },
)

-- Move assignment to another object: this one, the other, and the descriptors afterwards.
unfoldable pub move_assign : Sender → Sender → Descriptors → Sender × Sender × Descriptors
move_assign this other fds = (
  record { sockfd = other.sockfd; sin_port = other.sin_port; sin_addr = other.sin_addr },
  record other { sockfd = none },
  elim (this.sockfd) [ none ↦ fds | some fd ↦ with_fd fds fd false ],
)

-- What `sendto` answers.
pub data Errno : Type 0 where
  enobufs eagain ewouldblock hard : Errno

pub data SendAnswer : Type 0 where
  sent : ℕ → SendAnswer
  failed : Errno → SendAnswer

-- How `send` ends: quietly, with a line on standard error, or by an exception.
pub data SendOutcome : Type 0 where
  complete partial hard_error throws : SendOutcome

abbrev pub is_full : Errno → Bool
is_full enobufs = true
is_full eagain = true
is_full ewouldblock = true
is_full hard = false

unfoldable pub send : Bytes → SendAnswer → SendOutcome
send bytes (failed e) = if is_full e then throws else hard_error
send bytes (sent n) = if n == length bytes then complete else partial
