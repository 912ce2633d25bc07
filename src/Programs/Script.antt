-- ===== src/Programs/Script.antt =====
-- What the `main` of src/producer_rw.cpp, src/producer_gbm.cpp, src/producer_rw_nonblocking.cpp and
-- src/producer_gbm_nonblocking.cpp does, action by action, while the threads of the system that it
-- owns run and signals arrive.
use fix_feed_simulator.Prelude.{
  ℕ, ◌≡◌, List, [], ◌∷◌, Bool, true, false, ◌||◌, Option, none, some, if◌then◌else◌,
}

pub data Signal : Type 0 where
  sigint sigterm : Signal

-- A statement of `main`: the handler of a signal is set; the system is constructed; its threads are
-- launched; the loop sleeps until the flag is down; `stop` is called; `main` sleeps; the scope of the
-- system ends, with the destructor; the members are destroyed; `main` returns.
pub data Action : Type 0 where
  handle : Signal → Action
  construct launch wait_flag call_stop pause end_scope tear_down : Action
  give : ℕ → Action

-- The members of a system, in the order in which they are declared.
pub data Member : Type 0 where
  generators queue sender ticks_generated ticks_sent threads running_flag cv_monitor cv_mutex :
      Member

-- They are destroyed in the opposite order.
abbrev pub after_threads : List Member
after_threads = ticks_sent ∷ ticks_generated ∷ sender ∷ queue ∷ generators ∷ []

abbrev pub destruction : List Member
destruction = cv_mutex ∷ cv_monitor ∷ running_flag ∷ threads ∷ after_threads

-- What a program needs to know of the system that it owns.
pub record Engine {ℓ} (S : Type ℓ) : Type (ℓ + 1) where
  pub First : S → Type ℓ  -- what the constructor can make
  pub running : S → Bool
  pub ThreadStep : S → S → Type ℓ  -- a step of one of the three threads
  pub StopStep : S → S → Type ℓ  -- a step of the call of `stop`
  pub Returned : S → Type ℓ  -- that call is over
  pub Joined : S → Type ℓ  -- the three threads have returned

-- The system is not there, constructed, or live with its threads and the members not yet destroyed.
pub data Object {ℓ} (S : Type ℓ) : Type ℓ where
  absent : Object S
  constructed : S → Object S
  live : S → List Member → Object S

pub data Exit : Type 0 where
  returned : ℕ → Exit
  killed : Signal → Exit

pub record Program {ℓ} (S : Type ℓ) : Type ℓ where
  pub script : List Action  -- what `main` has still to do
  pub flag : Bool  -- the global that the handler lowers
  pub handled : List Signal
  pub object : Object S
  pub exit : Option Exit

abbrev pub same_signal : Signal → Signal → Bool
same_signal sigint sigint = true
same_signal sigterm sigterm = true
same_signal sigint sigterm = false
same_signal sigterm sigint = false

abbrev pub handles : Signal → List Signal → Bool
handles signal [] = false
handles signal (s ∷ rest) = same_signal signal s || handles signal rest

-- The destructor first calls `stop`, if that was not done.
abbrev pub destructor : Bool → List Action → List Action
destructor running rest = if running then call_stop ∷ tear_down ∷ rest else tear_down ∷ rest

module _ {ℓ} {S : Type ℓ} (e : Engine S) where
  pub data Step (p : Program S) : Program S → Type ℓ where
    -- `main`
    handles_signal :
        (signal : Signal) (rest : List Action)
        → p.exit ≡ none
        → p.script ≡ handle signal ∷ rest
        → Step p (record p { script = rest; handled = signal ∷ p.handled })
    constructs :
        (s : S) (rest : List Action)
        → p.exit ≡ none
        → p.script ≡ construct ∷ rest
        → e.First s
        → Step p (record p { script = rest; object = constructed s })
    launches :
        (s : S) (rest : List Action)
        → p.exit ≡ none
        → p.script ≡ launch ∷ rest
        → p.object ≡ constructed s
        → Step p (record p { script = rest; object = live s destruction })
    sleeps_on :
        (rest : List Action)
        → p.exit ≡ none
        → p.script ≡ wait_flag ∷ rest
        → p.flag ≡ true
        → Step p p
    wakes :
        (rest : List Action)
        → p.exit ≡ none
        → p.script ≡ wait_flag ∷ rest
        → p.flag ≡ false
        → Step p (record p { script = rest })
    stops :
        (s t : S) (ms : List Member) (rest : List Action)
        → p.exit ≡ none
        → p.script ≡ call_stop ∷ rest
        → p.object ≡ live s ms
        → e.StopStep s t
        → Step p (record p { object = live t ms })
    stop_returns :
        (s : S) (ms : List Member) (rest : List Action)
        → p.exit ≡ none
        → p.script ≡ call_stop ∷ rest
        → p.object ≡ live s ms
        → e.Returned s
        → Step p (record p { script = rest })
    pauses :
        (rest : List Action)
        → p.exit ≡ none
        → p.script ≡ pause ∷ rest
        → Step p (record p { script = rest })
    scope_ends :
        (s : S) (ms : List Member) (rest : List Action)
        → p.exit ≡ none
        → p.script ≡ end_scope ∷ rest
        → p.object ≡ live s ms
        → Step p (record p { script = destructor (e.running s) rest })
    -- The destructor of the threads joins them.
    tears :
        (s : S) (m : Member) (ms : List Member) (rest : List Action)
        → p.exit ≡ none
        → p.script ≡ tear_down ∷ rest
        → p.object ≡ live s (m ∷ ms)
        → (m ≡ threads → e.Joined s)
        → Step p (record p { object = live s ms })
    torn :
        (s : S) (rest : List Action)
        → p.exit ≡ none
        → p.script ≡ tear_down ∷ rest
        → p.object ≡ live s []
        → Step p (record p { script = rest; object = absent })
    gives :
        (code : ℕ) (rest : List Action)
        → p.exit ≡ none
        → p.script ≡ give code ∷ rest
        → Step p (record p { script = rest; exit = some (returned code) })
    -- the threads of the system
    threads_step :
        (s t : S) (ms : List Member)
        → p.exit ≡ none
        → p.object ≡ live s ms
        → e.ThreadStep s t
        → Step p (record p { object = live t ms })
    -- A signal, with a handler or without. The handler's second call changes nothing.
    signalled :
        (signal : Signal)
        → p.exit ≡ none
        → p.flag ≡ true
        → handles signal p.handled ≡ true
        → Step p (record p { flag = false })
    dies :
        (signal : Signal)
        → p.exit ≡ none
        → handles signal p.handled ≡ false
        → Step p (record p { exit = some (killed signal) })

  abbrev pub begin : List Action → Program S
  begin script = record { script = script; flag = true; handled = []; object = absent; exit = none }

  pub data Reach (script : List Action) : Program S → Type ℓ where
    here : Reach script (begin script)
    later : {p q : Program S} → Reach script p → Step p q → Reach script q
