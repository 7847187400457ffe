-- ===== src/Sch/Places/Runs.antt =====
-- The scheduler at work: the rounds of the worker that schedules, the workers that run tasks, and the
-- threads that post, wake and signal tasks, interleaved in any way. A step makes at most one access
-- to what other threads use at the same time: an exchange of a status, a push to the front queue or
-- the removal of all its tasks, a flush of the ready queue. The heap and the pending queue belong to
-- the worker with the scheduler's lock, and a task off the ready queue to the worker that took it.
use serverbox.Prelude.{
  ℕ, ◌<◌, ◌≡◌, inl, inr, Bool, true, false, some, List, ◌∷◌, ◌++◌, subst, arith, count,
}
use serverbox.Sch.Task.{
  World, push_front, start_post, start_wakeup, start_signal, receive_signal, set_deadline,
  adjust_deadline,
}
use serverbox.Sch.Scheduler.{wait_round, collect, pend_first, hand_out, execute}
use serverbox.Sch.Places.{IsOrderly}
use serverbox.Sch.Places.Flights.{
  start_post-IsOrderly, start_wakeup-IsOrderly, start_signal-IsOrderly, push_front-IsOrderly,
  flying_inside,
}
use serverbox.Sch.Places.Outside.{
  set_deadline-IsOrderly, adjust_deadline-IsOrderly, receive_signal-IsOrderly,
}
use serverbox.Sch.Places.Dispatch.{pend_first-IsOrderly}
use serverbox.Sch.Places.Expiry.{wait_round-IsOrderly}
use serverbox.Sch.Places.Execution.{IsTaken, execute-IsOrderly}
use serverbox.Sch.Places.Schedule.{collect-IsOrderly, hand_out-IsOrderly}

-- Post, PostWakeup and PostSignal are two steps each, of which the second is the push. A task in no
-- scheduler may get a deadline or receive its signal; SetWait, SetDelay and AdjustDelay are deadlines
-- that are set.
pub data Step : World → World → Type 0 where
  posts : (w w' : World) (t : ℕ) → w.inside t ≡ false → start_post w t ≡ some w' → Step w w'
  wakes : (w : World) (t : ℕ) → Step w (start_wakeup w t)
  signals : (w : World) (t : ℕ) → Step w (start_signal w t)
  pushes :
      (w w' : World) (t : ℕ) (xs ys : List ℕ)
      → w.flying ≡ xs ++ t ∷ ys
      → push_front (record w { flying = xs ++ ys }) t ≡ some w'
      → Step w w'
  sets_deadline :
      (w w' : World) (t d : ℕ) → w.inside t ≡ false → set_deadline w t d ≡ some w' → Step w w'
  adjusts_deadline :
      (w w' : World) (t d : ℕ) → w.inside t ≡ false → adjust_deadline w t d ≡ some w' → Step w w'
  receives :
      (w w' : World) (t : ℕ) (found : Bool)
      → w.inside t ≡ false
      → receive_signal w t ≡ some (found, w')
      → Step w w'
  expires :
      (w w' : World) (now : ℕ) (again : Bool) → wait_round w now ≡ some (again, w') → Step w w'
  collects : (w : World) → Step w (collect w)
  pends :
      (w w' : World) (now t : ℕ) (ts : List ℕ)
      → w.pending_queue ≡ t ∷ ts
      → pend_first (record w { pending_queue = ts }) now t ≡ some w'
      → Step w w'
  hands_out : (w : World) → Step w (hand_out w)
  executes : (w w' : World) (found : Bool) → execute w ≡ some (found, w') → Step w w'

pub data Runs : World → World → Type 0 where
  still : (w : World) → Runs w w
  then_step : (u v w : World) → Runs u v → Step v w → Runs u w

Step-IsOrderly : (w w' : World) → IsOrderly w → Step w w' → IsOrderly w'
Step-IsOrderly _ _ o (posts w w' t out e) =
    let (w1, f, g) = start_post-IsOrderly w t o out in
    let same : w1 ≡ w' = ground (arith, e, f) in subst IsOrderly same g
Step-IsOrderly _ _ o (wakes w t) = start_wakeup-IsOrderly w t o
Step-IsOrderly _ _ o (signals w t) = start_signal-IsOrderly w t o
Step-IsOrderly _ _ o (pushes w w' t xs ys fly e) =
    let (w1, f, g) = push_front-IsOrderly w t xs ys o fly in
    let same : w1 ≡ w' = ground (arith, e, f) in subst IsOrderly same g
Step-IsOrderly _ _ o (sets_deadline w w' t d out e) =
    let (w1, f, g) = set_deadline-IsOrderly w t d o out in
    let same : w1 ≡ w' = ground (arith, e, f) in subst IsOrderly same g
Step-IsOrderly _ _ o (adjusts_deadline w w' t d out e) =
    let (w1, f, g) = adjust_deadline-IsOrderly w t d o out in
    let same : w1 ≡ w' = ground (arith, e, f) in subst IsOrderly same g
Step-IsOrderly _ _ o (receives w w' t found out e) =
    let (_, w1, f, g) = receive_signal-IsOrderly w t o out in
    let same : w1 ≡ w' = ground (arith, e, f) in subst IsOrderly same g
Step-IsOrderly _ _ o (expires w w' now again e) =
    let (_, w1, f, g, _) = wait_round-IsOrderly w now o in
    let same : w1 ≡ w' = ground (arith, e, f) in subst IsOrderly same g
Step-IsOrderly _ _ o (collects w) = collect-IsOrderly w o
Step-IsOrderly _ _ o (pends w w' now t ts first e) =
    let (w1, f, g, _, _) = pend_first-IsOrderly w now t ts o first in
    let same : w1 ≡ w' = ground (arith, e, f) in subst IsOrderly same g
Step-IsOrderly _ _ o (hands_out w) = hand_out-IsOrderly w o
Step-IsOrderly _ _ o (executes w w' found e) = elim (execute-IsOrderly w o) [
  | inl (_, f) ↦ let same : w ≡ w' = ground (arith, e, f) in subst IsOrderly same o
  | inr (_, _, w1, _, f, g, _, _) ↦
      let same : w1 ≡ w' = ground (arith, e, f) in subst IsOrderly same g
]

Runs-IsOrderly : (v w : World) → IsOrderly v → Runs v w → IsOrderly w
Runs-IsOrderly _ _ o (still w) = o
Runs-IsOrderly _ _ o (then_step u v w r s) = Step-IsOrderly v w (Runs-IsOrderly u v o r) s

-- From a world where every task is in its place, after any steps, in any order, of the threads that
-- post, wake and signal tasks, each of them split into the change of the task and its push, of the
-- owners of tasks in no scheduler, of the worker that schedules and of those that run tasks: the first
-- task of the ready queue, if there is one, is run without a failed assertion and leaves the scheduler;
-- it is pending if it was ready, and still signaled if it was signaled; every task is in its place
-- again, or on its way there; and each push that is still ahead finds its task in the scheduler.
pub execute-Runs :
    (v w : World) (t : ℕ) (ts : List ℕ)
    → IsOrderly v
    → Runs v w
    → w.ready_queue ≡ t ∷ ts
    → (w' : World) × (execute w ≡ some (true, w'))
      × IsOrderly w'
      × (w'.inside t ≡ false)
      × IsTaken w w' t ts
      × ((u : ℕ) → 0 < count u w'.flying → w'.inside u ≡ true)
execute-Runs v w t ts o r first = elim (execute-IsOrderly w (Runs-IsOrderly v w o r)) [
  | inl (e, _) ↦ absurd (ground (arith, e, first))
  | inr (u, us, w1, e, f, g, i, k) ↦
      let same : u ≡ t = ground (arith, e, first) in
      let rest : us ≡ ts = ground (arith, e, first) in
      (
        w1,
        f,
        g,
        subst (λ x. w1.inside x ≡ false) same i,
        subst (λ x. IsTaken w w1 x ts) same (subst (λ xs. IsTaken w w1 u xs) rest k),
        λ x p. flying_inside w1 x g p,
      )
]
