-- ===== src/Box/InterruptibleMutex/Tests.antt =====
-- A run in which a second thread waits for the mutex and the first one hands it over, and the theorem
-- at it.
use serverbox.Prelude.{◌≤◌, ◌≡◌, refl, ◌≢◌, true, false, some, [], ◌∷◌, arith}
use serverbox.Box.InterruptibleMutex.{
  Mutex, is_empty, try_lock, unlock, advance_at, Action, act, Enabled, Reaches, new_mutex, free,
  arrived, found_taken, handing, done, tries, unlocks, locks_inner, hands_over, advances, still,
  then_act,
}
use serverbox.Box.InterruptibleMutex.Owners.{owners, mutex}
use serverbox.Box.InterruptibleMutex.Exclusion.{one_owner}

then_does :
    (a : Action) (v w : Mutex)
    → Reaches new_mutex v
    → Enabled a v
    → act a v ≡ some w
    → Reaches new_mutex w
then_does a v w r e q = then_act a new_mutex v w r e q

abbrev locked : Mutex
locked = mutex true false [] free 1 0 0 0

abbrev second_arrived : Mutex
second_arrived = mutex true false [] (arrived 7) 1 0 0 0

abbrev second_found : Mutex
second_found = mutex true true [] (found_taken 7) 1 0 0 0

-- the first thread cannot leave without the inner mutex
abbrev first_leaving : Mutex
first_leaving = mutex true true [] (found_taken 7) 0 1 0 0

abbrev second_waits : Mutex
second_waits = mutex true true (7 ∷ []) done 0 1 0 1

abbrev first_handing : Mutex
first_handing = mutex true true (7 ∷ []) handing 0 0 0 1

waits_reached : Reaches new_mutex second_waits
unfolding act try_lock unlock advance_at is_empty
waits_reached =
    then_does advances first_leaving second_waits
      (then_does unlocks second_found first_leaving
        (then_does advances second_arrived second_found
          (then_does (locks_inner 7) locked second_arrived
            (then_does tries new_mutex locked (still new_mutex) tt refl) refl refl)
          tt refl)
        (omega arith) refl)
      tt refl

handing_reached : Reaches new_mutex first_handing
unfolding act advance_at
handing_reached =
    then_does hands_over (mutex true true (7 ∷ []) free 0 1 0 1) first_handing
      (then_does advances second_waits (mutex true true (7 ∷ []) free 0 1 0 1) waits_reached tt
        refl)
      (omega arith, refl) refl

one_owner_example :
    (owners first_handing ≤ 1)
    × (first_handing.waiters ≢ [] → owners first_handing ≡ 1)
    × ((a : Action) → Enabled a first_handing → (w' : Mutex) × (act a first_handing ≡ some w'))
one_owner_example = one_owner first_handing handing_reached
