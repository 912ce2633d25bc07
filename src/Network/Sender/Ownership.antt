-- ===== src/Network/Sender/Ownership.antt =====
-- Who owns the sockets of include/network/udp_sender.h: objects at addresses, built, moved from,
-- moved to and destroyed in any order.
use fix_feed_simulator.Prelude.{
  ℕ, ◌≡◌, ◌≢◌, ◌↔◌, sym, ◌∙◌, arith, inl, inr, Bool, true, false, Option, none, some, Option-cases,
  ℕ_discrete, ◌==◌, if◌then◌else◌,
}
use fix_feed_simulator.Network.Sender.{
  Descriptors, with_fd, Sender, Answers, threw, built, Failure, construct, destroy, move_construct,
  move_assign,
}

-- The objects by address, and the open descriptors.
pub record World : Type 0 where
  pub object : ℕ → Option Sender
  pub fds : Descriptors

abbrev pub put : (ℕ → Option Sender) → ℕ → Option Sender → ℕ → Option Sender
put object i s j = if i == j then s else object j

-- The kernel gives out a descriptor that is not open.
abbrev pub IsFresh : Answers → Descriptors → Type 0
IsFresh a fds = (fd : ℕ) → a.socket ≡ some fd → fds fd ≡ false

pub data Step (w : World) : World → Type 0 where
  builds :
      (i port : ℕ) (a : Answers) (fds : Descriptors) (warned : Bool) (s : Sender)
      → w.object i ≡ none
      → IsFresh a w.fds
      → construct a port w.fds ≡ (fds, warned, built s)
      → Step w (record { object = put w.object i (some s); fds = fds })
  fails :
      (port : ℕ) (a : Answers) (fds : Descriptors) (warned : Bool) (why : Failure)
      → IsFresh a w.fds
      → construct a port w.fds ≡ (fds, warned, threw why)
      → Step w (record w { fds = fds })
  moves :
      (i j : ℕ) (s new left : Sender)
      → w.object i ≡ some s
      → w.object j ≡ none
      → move_construct s ≡ (new, left)
      → Step w (record w { object = put (put w.object i (some left)) j (some new) })
  assigns :
      (i j : ℕ) (this other new left : Sender) (fds : Descriptors)
      → w.object i ≡ some this
      → w.object j ≡ some other
      → i ≢ j
      → move_assign this other w.fds ≡ (new, left, fds)
      → Step w (record { object = put (put w.object j (some left)) i (some new); fds = fds })
  -- Assignment of an object to itself is caught, and does nothing.
  assigns_self : (i : ℕ) (this : Sender) → w.object i ≡ some this → Step w w
  destroys :
      (i : ℕ) (s : Sender)
      → w.object i ≡ some s
      → Step w (record { object = put w.object i none; fds = destroy s w.fds })

abbrev pub start : World
start = record { object = λ _. none; fds = λ _. false }

pub data Reach : World → Type 0 where
  here : Reach start
  later : {v w : World} → Reach v → Step v w → Reach w

abbrev pub fd_of : Option Sender → Option ℕ
fd_of none = none
fd_of (some s) = s.sockfd

-- Each open descriptor has one owner, and each owner an open descriptor.
pub record Inv (w : World) : Type 0 where
  pub sound : (i fd : ℕ) → fd_of (w.object i) ≡ some fd → w.fds fd ≡ true
  pub unique : (i j fd : ℕ) → fd_of (w.object i) ≡ some fd → fd_of (w.object j) ≡ some fd → i ≡ j
  pub owned : (fd : ℕ) → w.fds fd ≡ true → (i : ℕ) × (fd_of (w.object i) ≡ some fd)

-- An object that is built holds the new descriptor, and only that one was opened.
construct-built :
    (a : Answers) (port : ℕ) (fds fds' : Descriptors) (warned : Bool) (s : Sender)
    → construct a port fds ≡ (fds', warned, built s)
    → (fd : ℕ) × (a.socket ≡ some fd)
      × (s.sockfd ≡ some fd)
      × ((i : ℕ) → fds' i ≡ with_fd fds fd true i)
unfolding construct
construct-built a port fds fds' warned s e = elim (Option-cases a.socket) [
  | inl none_given ↦ absurd (ground arith)
  | inr (fd, given) ↦ (fd, given, ground arith, λ i. ground arith)
]

-- If the system hands out only descriptors that are not open, a constructor that throws leaves the
-- same descriptors open as before.
pub construct-threw :
    (a : Answers) (port : ℕ) (fds fds' : Descriptors) (warned : Bool) (why : Failure)
    → IsFresh a fds
    → construct a port fds ≡ (fds', warned, threw why)
    → (i : ℕ) → fds' i ≡ fds i
unfolding construct
construct-threw a port fds fds' warned why fresh e i = elim (Option-cases a.socket) [
  | inl none_given ↦ ground arith
  | inr (fd, given) ↦ ground (arith, fresh fd given)
]

builds-Inv :
    {w : World} (i port : ℕ) (a : Answers) (fds : Descriptors) (warned : Bool) (s : Sender)
    → w.object i ≡ none
    → IsFresh a w.fds
    → construct a port w.fds ≡ (fds, warned, built s)
    → Inv w
    → Inv (record { object = put w.object i (some s); fds = fds })
builds-Inv {w} i port a fds warned s free fresh e inv =
    let (fd, given, held, opened) = construct-built a port w.fds fds warned s e in
    let new = fresh fd given in
    record {
      sound = λ j x at. ground (arith, inv.sound j x, opened x);
      unique = λ j k x at at'. ground (arith, inv.unique j k x, inv.sound j x, inv.sound k x);
      owned = λ x up. elim (ℕ_discrete fd x) [
        | yes same ↦ (i, ground arith)
        | no other ↦ let (j, at) = inv.owned x (ground (arith, opened x)) in (j, ground arith)
      ];
    }

moves-Inv :
    {w : World} (i j : ℕ) (s new left : Sender)
    → w.object i ≡ some s
    → w.object j ≡ none
    → move_construct s ≡ (new, left)
    → Inv w
    → Inv (record w { object = put (put w.object i (some left)) j (some new) })
unfolding move_construct
moves-Inv {w} i j s new left from to e inv = record {
  sound = λ k x at. ground (arith, inv.sound k x, inv.sound i x);
  unique = λ k l x at at'. ground (arith, inv.unique k l x, inv.unique i l x, inv.unique k i x);
  owned = λ x up.
      let (k, at) = inv.owned x up in
      elim (ℕ_discrete k i) [ yes same ↦ (j, ground arith) | no other ↦ (k, ground arith) ];
}

-- What is open after a socket was given up: all that was, but that one.
destroy_lem :
    (s : Sender) (fds : Descriptors) (x : ℕ)
    → (destroy s fds x ≡ true) ↔ ((fds x ≡ true) × (s.sockfd ≢ some x))
unfolding destroy
destroy_lem s fds x = elim (Option-cases s.sockfd) [
  | inl moved ↦ ground arith
  | inr (fd, held) ↦ ((λ up. (ground arith, λ same. ground arith)), λ (up, ne). ground arith)
]

assign_lem :
    (this other new left : Sender) (fds fds' : Descriptors)
    → move_assign this other fds ≡ (new, left, fds')
    → (new.sockfd ≡ other.sockfd)
      × (left.sockfd ≡ none)
      × ((x : ℕ) → (fds' x ≡ true) ↔ ((fds x ≡ true) × (this.sockfd ≢ some x)))
unfolding move_assign
assign_lem this other new left fds fds' e = (
  ground arith,
  ground arith,
  λ x. elim (Option-cases this.sockfd) [
    | inl moved ↦ ground arith
    | inr (fd, held) ↦ ((λ up. (ground arith, λ same. ground arith)), λ (up, ne). ground arith)
  ],
)

assigns-Inv :
    {w : World} (i j : ℕ) (this other new left : Sender) (fds : Descriptors)
    → w.object i ≡ some this
    → w.object j ≡ some other
    → i ≢ j
    → move_assign this other w.fds ≡ (new, left, fds)
    → Inv w
    → Inv (record { object = put (put w.object j (some left)) i (some new); fds = fds })
assigns-Inv {w} i j this other new left fds at_i at_j ne e inv =
    let (held, rest, closed) = assign_lem this other new left w.fds fds e in
    record {
      sound = λ k x at.
          ground
            (arith, closed x, inv.sound k x, inv.sound j x, inv.unique i k x, inv.unique i j x);
      unique = λ k l x at at'. ground (arith, inv.unique k l x, inv.unique j l x, inv.unique k j x);
      owned = λ x up.
          let (k, at) = inv.owned x ((closed x).0 up).0 in
          let kept = ((closed x).0 up).1 in
          elim (ℕ_discrete k j) [ yes same ↦ (i, ground arith) | no other_one ↦ (k, ground arith) ];
    }

destroys-Inv :
    {w : World} (i : ℕ) (s : Sender)
    → w.object i ≡ some s
    → Inv w
    → Inv (record { object = put w.object i none; fds = destroy s w.fds })
destroys-Inv {w} i s at_i inv = record {
  sound = λ k x at. ground (arith, destroy_lem s w.fds x, inv.sound k x, inv.unique i k x);
  unique = λ k l x at at'. ground (arith, inv.unique k l x);
  owned = λ x up.
      let (was, kept) = (destroy_lem s w.fds x).0 up in
      let (k, at) = inv.owned x was in (k, ground arith);
}

Step-Inv : {v w : World} → Step v w → Inv v → Inv w
Step-Inv (builds i port a fds warned s free fresh e) inv =
    builds-Inv i port a fds warned s free fresh e inv
Step-Inv {v} (fails port a fds warned why fresh e) inv =
    let same = construct-threw a port v.fds fds warned why fresh e in
    record {
      sound = λ j x at. same x ∙ inv.sound j x at;
      unique = inv.unique;
      owned = λ x up. inv.owned x (sym (same x) ∙ up);
    }
Step-Inv (moves i j s new left from to e) inv = moves-Inv i j s new left from to e inv
Step-Inv (assigns i j this other new left fds at_i at_j ne e) inv =
    assigns-Inv i j this other new left fds at_i at_j ne e inv
Step-Inv (assigns_self i this at_i) inv = inv
Step-Inv (destroys i s at_i) inv = destroys-Inv i s at_i inv

Reach-Inv : {w : World} → Reach w → Inv w
Reach-Inv here = record {
  sound = λ i fd at. ground arith;
  unique = λ i j fd at at'. ground arith;
  owned = λ fd up. ground arith;
}
Reach-Inv (later r st) = Step-Inv st (Reach-Inv r)

-- If the system hands out only descriptors that are not open: whatever is built, moved, assigned
-- and destroyed, in any order, every open descriptor has exactly one owner and every owner's
-- descriptor is open. None is leaked, closed twice or used after it was closed, and an object whose
-- constructor throws leaves nothing open.
pub descriptors_owned :
    {w : World}
    → Reach w
    → ((i fd : ℕ) → fd_of (w.object i) ≡ some fd → w.fds fd ≡ true)
      × ((i j fd : ℕ) → fd_of (w.object i) ≡ some fd → fd_of (w.object j) ≡ some fd → i ≡ j)
      × ((fd : ℕ) → w.fds fd ≡ true → (i : ℕ) × (fd_of (w.object i) ≡ some fd))
descriptors_owned r = let inv = Reach-Inv r in (inv.sound, inv.unique, inv.owned)
