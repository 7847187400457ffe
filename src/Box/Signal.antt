-- ===== src/Box/Signal.antt =====
-- src/mg/box/Signal.cpp: a signal that is sent without a lock if it has been sent already, received
-- without a lock if it is there, and waited for under a mutex with a condition variable. Any number
-- of threads send, one receives at a time. The mutex has one owner; the wait on the condition
-- variable gives it up at once, ends when another thread signals the condition, or for no reason,
-- and then takes the mutex again: this is what the C++ library says of them.
pub mod Waking
mod Tests
use serverbox.Prelude.{
  ℕ, zero, suc, ◌+◌, ◌-◌, ◌≤◌, ◌<◌, min, ◌≡◌, refl, sym, ap, ◌∙◌, subst, ◌≢◌, ◌⊎◌, inl, inr, Bool,
  true, false, ◌&&◌, ◌||◌, not, Option, none, some, List, [], ◌∷◌, ◌++◌, arith, ltb, leb, ◌==◌,
  if◌then◌else◌, ltb→lt, lt→ltb, leb→le, tests, Bool-cases, Option-cases, ◌>>=◌, length, take, drop,
  replicate, length-append, length-take, length-drop, length-replicate, take-append-drop,
  take-append_short, take-append_long, drop-append_short, drop-append_long, drop-take, take_all,
  drop_all, take-take, take_add, append-nil, append_assoc,
}

pub data State : Type 0 where
  empty : State
  probe : State
  signaled : State

-- The first exchange of Send(): whether the thread goes on
unfoldable pub start_send : State → Bool × State
start_send empty = (true, probe)
start_send s = (false, s)

-- The second exchange of Send(), and its assertion
unfoldable pub finish_send : State → Option State
finish_send probe = some signaled
finish_send s = none

-- Receive()
unfoldable pub receive : State → Bool × State
receive signaled = (true, empty)
receive s = (false, s)

-- Who has the mutex, and where in Send() its owner is
pub data Owner : Type 0 where
  free : Owner
  entered : Owner
  has_set : Owner
  has_signaled : Owner
  receiver : Owner

-- Where the receiver is in ReceiveBlocking(), or in ReceiveTimed()
pub data Phase : Type 0 where
  outside : Phase
  locking : Phase
  checking : Phase
  failing : Phase
  waiting : Phase
  leaving : Phase

-- `sending` says whether a thread has won the first exchange of Send() and not made the second one.
pub record System : Type 0 where
  pub state : State
  pub sending : Bool
  pub owner : Owner
  pub phase : Phase

-- The signal to the condition variable
unfoldable pub notified : Phase → Phase
notified waiting = locking
notified r = r

abbrev pub sys : State → Bool → Owner → Phase → System
sys s b o r = record { state = s; sending = b; owner = o; phase = r }

-- A step of one of the threads
pub data Step : System → System → Type 0 where
  sends :
      (s : State) (b : Bool) (o : Owner) (r : Phase)
      → (start_send s).0 ≡ true
      → Step (sys s b o r) (sys (start_send s).1 true o r)
  enters : (s : State) (r : Phase) → Step (sys s true free r) (sys s true entered r)
  sets :
      (s s' : State) (b : Bool) (r : Phase)
      → finish_send s ≡ some s'
      → Step (sys s b entered r) (sys s' false has_set r)
  signals :
      (s : State) (b : Bool) (r : Phase)
      → Step (sys s b has_set r) (sys s b has_signaled (notified r))
  unlocks : (s : State) (b : Bool) (r : Phase) → Step (sys s b has_signaled r) (sys s b free r)
  receives :
      (s : State) (b : Bool) (o : Owner)
      → (receive s).0 ≡ true
      → Step (sys s b o outside) (sys (receive s).1 b o outside)
  goes_to_lock :
      (s : State) (b : Bool) (o : Owner)
      → (receive s).0 ≡ false
      → Step (sys s b o outside) (sys s b o locking)
  locks : (s : State) (b : Bool) → Step (sys s b free locking) (sys s b receiver checking)
  finds :
      (s : State) (b : Bool)
      → (receive s).0 ≡ true
      → Step (sys s b receiver checking) (sys (receive s).1 b receiver leaving)
  fails :
      (s : State) (b : Bool)
      → (receive s).0 ≡ false
      → Step (sys s b receiver checking) (sys s b receiver failing)
  waits : (s : State) (b : Bool) → Step (sys s b receiver failing) (sys s b free waiting)
  wakes_up : (s : State) (b : Bool) (o : Owner) → Step (sys s b o waiting) (sys s b o locking)
  gives_up : (s : State) (b : Bool) → Step (sys s b receiver failing) (sys s b receiver leaving)
  leaves : (s : State) (b : Bool) → Step (sys s b receiver leaving) (sys s b free outside)

pub data Reaches : System → System → Type 0 where
  still : (w : System) → Reaches w w
  then_step : (u v w : System) → Reaches u v → Step v w → Reaches u w

-- A new signal, with nobody at it
abbrev pub new_system : System
new_system = sys empty false free outside
