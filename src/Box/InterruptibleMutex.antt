-- ===== src/Box/InterruptibleMutex.antt =====
-- src/mg/box/InterruptibleMutex.cpp: a mutex whose owner can be woken up by those that wait for it.
-- The state is two flags, changed by single atomic operations; the list of waiters is changed under
-- an inner mutex. Each atomic operation is a step, and so is each change under the inner mutex, in
-- the order of the source. Threads that own the mutex are counted; those that wait have a name.
-- A failed assertion is `none`. The inner mutex, and the signal on which a waiter sleeps, do what
-- their documentation says: the mutex has one owner, the signal is received once it is sent.
pub mod Owners
pub mod Handing
pub mod Exclusion
mod Tests
use serverbox.Prelude.{
  ℕ, zero, suc, ◌+◌, ◌-◌, ◌≤◌, ◌<◌, min, ◌≡◌, refl, sym, ap, ◌∙◌, subst, ◌≢◌, ◌⊎◌, inl, inr, Bool,
  true, false, ◌&&◌, ◌||◌, not, Option, none, some, List, [], ◌∷◌, ◌++◌, arith, ltb, leb, ◌==◌,
  if◌then◌else◌, ltb→lt, lt→ltb, leb→le, tests, Bool-cases, Option-cases, ◌>>=◌, length, take, drop,
  replicate, length-append, length-take, length-drop, length-replicate, take-append-drop,
  take-append_short, take-append_long, drop-append_short, drop-append_long, drop-take, take_all,
  drop_all, take-take, take_add, append-nil, append_assoc,
}

-- Who has the inner mutex, and where its owner is: in Lock() before it sets the flag of the waiters,
-- or after, when it has found the mutex free or taken; in Unlock() before it takes the first waiter
-- out, after, and when the flag of the waiters is updated; or at the end of either
pub data Place : Type 0 where
  free : Place
  arrived : ℕ → Place
  found_free : Place
  found_taken : ℕ → Place
  handing : Place
  popped : ℕ → Place
  updated : ℕ → Place
  done : Place

-- `taken` and `has_waiters` are the flags of the state. `wakeups` counts the calls of the callback.
-- Of the threads that own the mutex, `holding` are outside of Unlock(), or in it before its first
-- exchange; `leaving` have failed the exchange and wait for the inner mutex; `given` have been sent
-- the signal in Lock() and not yet passed its last assertion.
pub record Mutex : Type 0 where
  pub taken : Bool
  pub has_waiters : Bool
  pub waiters : List ℕ
  pub place : Place
  pub holding : ℕ
  pub leaving : ℕ
  pub given : ℕ
  pub wakeups : ℕ

unfoldable pub is_empty : List ℕ → Bool
is_empty [] = true
is_empty (x ∷ xs) = false

-- TryLock(), also at the start of Lock()
unfoldable pub try_lock : Mutex → Mutex
try_lock w =
    if w.taken || w.has_waiters then w else record w { taken = true; holding = suc w.holding }

-- Unlock(), up to the inner mutex
unfoldable pub unlock : Mutex → Option Mutex
unlock w =
    if w.taken && not w.has_waiters
    then some (record w { taken = false; holding = w.holding - 1 })
    else if w.taken && w.has_waiters
    then some (record w { holding = w.holding - 1; leaving = suc w.leaving })
    else none

-- A waiter is signaled, and returns from Lock()
unfoldable pub return_owner : Mutex → Option Mutex
return_owner w =
    if w.taken then some (record w { given = w.given - 1; holding = suc w.holding }) else none

-- PopFirst() in Unlock()
unfoldable pub pop_waiter : List ℕ → Mutex → Option Mutex
pop_waiter [] w = none
pop_waiter (x ∷ xs) w = some (record w { waiters = xs; place = popped x })

-- What the owner of the inner mutex does next
unfoldable pub advance_at : Place → Mutex → Option Mutex
advance_at free w = some w
advance_at (arrived t) w =
    if w.taken
    then some (record w { has_waiters = true; place = found_taken t })
    else if is_empty w.waiters
    then some (record w { has_waiters = true; place = found_free })
    else none
advance_at found_free w =
    if w.has_waiters && not w.taken
    then some
        (record w { taken = true; has_waiters = false; holding = suc w.holding; place = done })
    else none
advance_at (found_taken t) w = some (record w {
  wakeups = if is_empty w.waiters then suc w.wakeups else w.wakeups;
  waiters = w.waiters ++ (t ∷ []);
  place = done;
})
advance_at handing w = pop_waiter w.waiters w
advance_at (popped t) w =
    if w.taken && w.has_waiters
    then some (record w {
      has_waiters = if is_empty w.waiters then false else w.has_waiters;
      place = updated t;
    })
    else none
advance_at (updated t) w = some (record w { given = suc w.given; place = done })
advance_at done w = some (record w { place = free })

abbrev pub advance : Mutex → Option Mutex
advance w = advance_at w.place w

-- A step of one of the threads
pub data Action : Type 0 where
  tries : Action
  unlocks : Action
  returns : Action
  locks_inner : ℕ → Action
  hands_over : Action
  advances : Action

unfoldable pub act : Action → Mutex → Option Mutex
act tries w = some (try_lock w)
act unlocks w = unlock w
act returns w = return_owner w
act (locks_inner t) w = some (record w { place = arrived t })
act hands_over w = some (record w { leaving = w.leaving - 1; place = handing })
act advances w = advance w

-- Whether there is a thread that can make the step
abbrev pub Enabled : Action → Mutex → Type 0
Enabled tries w = Unit
Enabled unlocks w = 0 < w.holding
Enabled returns w = 0 < w.given
Enabled (locks_inner t) w = w.place ≡ free
Enabled hands_over w = (0 < w.leaving) × (w.place ≡ free)
Enabled advances w = Unit

pub data Reaches : Mutex → Mutex → Type 0 where
  still : (w : Mutex) → Reaches w w
  then_act :
      (a : Action) (u v w : Mutex) → Reaches u v → Enabled a v → act a v ≡ some w → Reaches u w

-- The constructor of the source
abbrev pub new_mutex : Mutex
new_mutex = record {
  taken = false;
  has_waiters = false;
  waiters = [];
  place = free;
  holding = 0;
  leaving = 0;
  given = 0;
  wakeups = 0;
}
