-- ===== src/Box/Signal/Tests.antt =====
-- A run in which the receiver falls asleep before the signal is set, and the theorem at it.
use serverbox.Prelude.{◌≡◌, refl, ◌⊎◌, true, false, arith}
use serverbox.Box.Signal.{
  start_send, finish_send, receive, System, sys, Reaches, new_system, empty, probe, signaled, free,
  entered, has_set, receiver, locking, checking, failing, waiting, sends, still, then_step, enters,
  sets, goes_to_lock, locks, fails, waits,
}
use serverbox.Box.Signal.Waking.{no_lost_signal}

abbrev asleep : System
asleep = sys empty false free waiting

sleeps : Reaches new_system asleep
unfolding receive
sleeps =
    then_step new_system (sys empty false receiver failing) asleep
      (then_step new_system (sys empty false receiver checking) (sys empty false receiver failing)
        (then_step new_system (sys empty false free locking) (sys empty false receiver checking)
          (then_step new_system new_system (sys empty false free locking) (still new_system)
            (goes_to_lock empty false free refl))
          (locks empty false))
        (fails empty false refl))
      (waits empty false)

-- a sender has set the signal, with the mutex taken
abbrev signal_set : System
signal_set = sys signaled false has_set waiting

sets_then : Reaches new_system signal_set
unfolding start_send finish_send
sets_then =
    then_step new_system (sys probe true entered waiting) signal_set
      (then_step new_system (sys probe true free waiting) (sys probe true entered waiting)
        (then_step new_system asleep (sys probe true free waiting) sleeps
          (sends empty false free waiting refl))
        (enters probe waiting))
      (sets probe signaled true waiting refl)

no_lost_signal_example : (signal_set.sending ≡ true) ⊎ (signal_set.owner ≡ has_set)
no_lost_signal_example = no_lost_signal signal_set sets_then refl (λ e. absurd (ground (arith, e)))
