-- ===== src/Box/Signal/Waking.antt =====
-- What a receiver may have missed when it sleeps on the condition variable.
use serverbox.Prelude.{
  ◌≡◌, refl, sym, ap, ◌∙◌, subst, ◌≢◌, ◌⊎◌, inl, inr, Bool, true, false, ◌&&◌, not, some, arith,
}
use serverbox.Box.Signal.{
  State, start_send, finish_send, receive, Owner, Phase, System, notified, sys, Step, Reaches,
  new_system, empty, probe, signaled, free, entered, has_set, has_signaled, receiver, outside,
  locking, checking, failing, waiting, leaving, sends, still, then_step, enters, sets, signals,
  unlocks, receives, goes_to_lock, locks, finds, fails, waits, wakes_up, gives_up, leaves,
}

abbrev is_probe : State → Bool
is_probe probe = true
is_probe s = false

abbrev is_signaled : State → Bool
is_signaled signaled = true
is_signaled s = false

-- a thread is between the two exchanges of Send()
abbrev has_entered : Owner → Bool
has_entered entered = true
has_entered o = false

abbrev about_to_signal : Owner → Bool
about_to_signal has_set = true
about_to_signal o = false

abbrev is_receiver : Owner → Bool
is_receiver receiver = true
is_receiver o = false

abbrev in_lock : Phase → Bool
in_lock checking = true
in_lock failing = true
in_lock leaving = true
in_lock r = false

abbrev is_waiting : Phase → Bool
is_waiting waiting = true
is_waiting r = false

abbrev is_failing : Phase → Bool
is_failing failing = true
is_failing r = false

-- The state is the probe exactly while a thread sends; the owner of the mutex is where it says it
-- is; a receiver that has just failed, or sleeps, has missed nothing.
pub record IsAwake (w : System) : Type 0 where
  pub probing : is_probe w.state ≡ w.sending
  pub inside : (has_entered w.owner && not w.sending) ≡ false
  pub held : in_lock w.phase ≡ is_receiver w.owner
  pub nothing_missed : (is_signaled w.state && is_failing w.phase) ≡ false
  pub told : (is_signaled w.state && is_waiting w.phase && not (about_to_signal w.owner)) ≡ false

not_inside : (r : Phase) → in_lock r ≡ false → (is_failing r ≡ false)
not_inside failing e = absurd (ground (arith, e))
not_inside outside e = refl
not_inside locking e = refl
not_inside checking e = refl
not_inside waiting e = refl
not_inside leaving e = refl

and_false : (b : Bool) → (b && false) ≡ false
and_false true = refl
and_false false = refl

told_now :
    (r : Phase)
    → (in_lock (notified r) ≡ in_lock r)
      × (is_waiting (notified r) ≡ false)
      × (is_failing (notified r) ≡ is_failing r)
unfolding notified
told_now waiting = (refl, refl, refl)
told_now outside = (refl, refl, refl)
told_now locking = (refl, refl, refl)
told_now checking = (refl, refl, refl)
told_now failing = (refl, refl, refl)
told_now leaving = (refl, refl, refl)

-- the state with the signal taken, or not yet sent, has nothing to tell of
abbrev Silent : (s : State) (b : Bool) (o : Owner) (r : Phase) → Type 0
Silent s b o r =
    is_signaled s ≡ false
    → is_probe s ≡ b
    → (has_entered o && not b) ≡ false
    → in_lock r ≡ is_receiver o
    → IsAwake (sys s b o r)

nothing_sent : (s : State) (b : Bool) (o : Owner) (r : Phase) → Silent s b o r
nothing_sent s b o r e p n h = record {
  probing = p;
  inside = n;
  held = h;
  nothing_missed = rw e refl;
  told = rw e refl;
}

-- a step of the receiver that ends neither in a failed check nor in a wait
no_sleep :
    (s : State) (b : Bool) (o : Owner) (r : Phase)
    → is_probe s ≡ b
    → (has_entered o && not b) ≡ false
    → in_lock r ≡ is_receiver o
    → is_failing r ≡ false
    → is_waiting r ≡ false
    → IsAwake (sys s b o r)
no_sleep s b o r p n h f w = record {
  probing = p;
  inside = n;
  held = h;
  nothing_missed = rw f (and_false (is_signaled s));
  told = rw w (ap (λ k. k && not (about_to_signal o)) (and_false (is_signaled s)));
}

Step-IsAwake : (v w : System) → IsAwake v → Step v w → IsAwake w
unfolding start_send finish_send receive
Step-IsAwake _ _ i (sends empty b o r e) =
    nothing_sent probe true o r refl refl (and_false (has_entered o)) i.held
Step-IsAwake _ _ i (sends probe b o r e) = absurd (ground (arith, e))
Step-IsAwake _ _ i (sends signaled b o r e) = absurd (ground (arith, e))
Step-IsAwake _ _ i (enters s r) = record {
  probing = i.probing;
  inside = refl;
  held = i.held;
  nothing_missed = i.nothing_missed;
  told = i.told;
}
Step-IsAwake _ _ i (sets empty s' b r e) = absurd (ground (arith, e))
Step-IsAwake _ _ i (sets signaled s' b r e) = absurd (ground (arith, e))
Step-IsAwake _ _ i (sets probe s' b r e) =
    let same : signaled ≡ s' = ground (arith, e) in
    subst (λ k. IsAwake (sys k false has_set r)) same
      (record {
        probing = refl;
        inside = refl;
        held = i.held;
        nothing_missed = not_inside r i.held;
        told = and_false (is_waiting r);
      })
Step-IsAwake _ _ i (signals s b r) =
    let (l, w, f) = told_now r in
    no_sleep s b has_signaled (notified r) i.probing refl (l ∙ i.held) (f ∙ not_inside r i.held) w
Step-IsAwake _ _ i (unlocks s b r) = record {
  probing = i.probing;
  inside = refl;
  held = i.held;
  nothing_missed = i.nothing_missed;
  told = i.told;
}
Step-IsAwake _ _ i (receives empty b o e) = absurd (ground (arith, e))
Step-IsAwake _ _ i (receives probe b o e) = absurd (ground (arith, e))
Step-IsAwake _ _ i (receives signaled b o e) =
    nothing_sent empty b o outside refl i.probing i.inside i.held
Step-IsAwake _ _ i (goes_to_lock s b o e) =
    no_sleep s b o locking i.probing i.inside i.held refl refl
Step-IsAwake _ _ i (locks s b) = no_sleep s b receiver checking i.probing refl refl refl refl
Step-IsAwake _ _ i (finds empty b e) = absurd (ground (arith, e))
Step-IsAwake _ _ i (finds probe b e) = absurd (ground (arith, e))
Step-IsAwake _ _ i (finds signaled b e) =
    nothing_sent empty b receiver leaving refl i.probing refl refl
Step-IsAwake _ _ i (fails signaled b e) = absurd (ground (arith, e))
Step-IsAwake _ _ i (fails empty b e) =
    nothing_sent empty b receiver failing refl i.probing refl refl
Step-IsAwake _ _ i (fails probe b e) =
    nothing_sent probe b receiver failing refl i.probing refl refl
Step-IsAwake _ _ i (waits signaled b) = absurd (ground (arith, i.nothing_missed))
Step-IsAwake _ _ i (waits empty b) = nothing_sent empty b free waiting refl i.probing refl refl
Step-IsAwake _ _ i (waits probe b) = nothing_sent probe b free waiting refl i.probing refl refl
Step-IsAwake _ _ i (wakes_up s b o) = no_sleep s b o locking i.probing i.inside i.held refl refl
Step-IsAwake _ _ i (gives_up s b) = no_sleep s b receiver leaving i.probing refl refl refl refl
Step-IsAwake _ _ i (leaves s b) = no_sleep s b free outside i.probing refl refl refl refl

new_system-IsAwake : IsAwake new_system
new_system-IsAwake = nothing_sent empty false free outside refl refl refl refl

Reaches-IsAwake : (v w : System) → IsAwake v → Reaches v w → IsAwake w
Reaches-IsAwake _ _ i (still w) = i
Reaches-IsAwake _ _ i (then_step u v w r e) = Step-IsAwake v w (Reaches-IsAwake u v i r) e

awake_now :
    (s : State) (b : Bool) (o : Owner)
    → IsAwake (sys s b o waiting)
    → s ≢ empty
    → (b ≡ true) ⊎ (o ≡ has_set)
awake_now empty b o i n = absurd (n refl)
awake_now probe b o i n = inl (sym i.probing)
awake_now signaled b has_set i n = inr refl
awake_now signaled b free i n = absurd (ground (arith, i.told))
awake_now signaled b entered i n = absurd (ground (arith, i.told))
awake_now signaled b has_signaled i n = absurd (ground (arith, i.told))
awake_now signaled b receiver i n = absurd (ground (arith, i.told))

-- From a new signal, after any steps of the senders and of the receiver: if the receiver sleeps on
-- the condition variable although Send() has begun to set the signal or has set it, then a thread is
-- in Send(), and has yet to signal the condition.
pub no_lost_signal :
    (w : System)
    → Reaches new_system w
    → w.phase ≡ waiting
    → w.state ≢ empty
    → (w.sending ≡ true) ⊎ (w.owner ≡ has_set)
no_lost_signal w r e n =
    let i = Reaches-IsAwake new_system w new_system-IsAwake r in
    awake_now w.state w.sending w.owner (subst (λ k. IsAwake (sys w.state w.sending w.owner k)) e i)
      n

send_ends :
    (s : State) (b : Bool) (r : Phase) → IsAwake (sys s b entered r) → finish_send s ≡ some signaled
unfolding finish_send
send_ends probe b r i = refl
send_ends empty true r i = absurd (ground (arith, i.probing))
send_ends empty false r i = absurd (ground (arith, i.inside))
send_ends signaled true r i = absurd (ground (arith, i.probing))
send_ends signaled false r i = absurd (ground (arith, i.inside))

-- The second exchange of Send() finds the state that its assertion wants, after any steps.
pub finish_send_passes :
    (w : System) → Reaches new_system w → w.owner ≡ entered → finish_send w.state ≡ some signaled
finish_send_passes w r e =
    let i = Reaches-IsAwake new_system w new_system-IsAwake r in
    send_ends w.state w.sending w.phase (subst (λ k. IsAwake (sys w.state w.sending k w.phase)) e i)
