-- ===== src/Sch/Task.antt =====
-- src/mg/sch/Task.cpp: the fields of the tasks, and the operations on one task.
-- A task is a number. `World` holds the fields of all tasks and the queues of one scheduler, in the
-- order in which they are emptied; the heap of waiting tasks stores `myIndex`. The front queue is a
-- lock-free stack that is turned round when it is emptied (MultiProducerQueueIntrusive.h), so it is
-- a list here, with pushes at its end. A failed assertion is a fault, `none`; of the assertions,
-- that of PrivTouch is `touch`.
use serverbox.Prelude.{
  ℕ, ◌-◌, ◌^◌, ◌+◌, ◌%◌, Bool, true, false, Option, none, some, List, [], ◌∷◌, ◌++◌, ◌>>=◌, ltb,
  leb, if◌then◌else◌,
}
use serverbox.Box.Links.{update}
use serverbox.Box.BinaryHeap.{Heap}

pub data Status : Type 0 where
  pending : Status
  waiting : Status
  ready : Status
  signaled : Status

-- `flying` holds the tasks that a thread has put into the scheduler, or whose status it has changed in
-- order to wake them, and that it has yet to push to the front queue.
-- `inside` tells whether `myScheduler` is set. `front_queue`, `pending_queue`, `heap` and
-- `ready_queue` are the queues of the scheduler, `picked` the local list `ready` of PrivSchedule.
pub record World : Type 0 where
  pub status : ℕ → Status
  pub deadline : ℕ → ℕ
  pub expired : ℕ → Bool
  pub inside : ℕ → Bool
  pub flying : List ℕ
  pub front_queue : List ℕ
  pub pending_queue : List ℕ
  pub heap : Heap
  pub picked : List ℕ
  pub ready_queue : List ℕ
  pub sched_batch : ℕ

-- `MG_TIME_INFINITE`
abbrev pub infinite : ℕ
infinite = 2 ^ 64 - 1

abbrev pub set_status : World → ℕ → Status → World
set_status w t s = record w { status = update w.status t s }

abbrev pub set_deadline_of : World → ℕ → ℕ → World
set_deadline_of w t d = record w { deadline = update w.deadline t d }

-- PrivTouch(): the task must not be in a scheduler
unfoldable pub touch : World → ℕ → Option World
touch w t = if w.inside t then none else some w

-- PrivPost(), without the signal to the sleeping worker
unfoldable pub push_front : World → ℕ → Option World
push_front w t =
    if w.inside t then some (record w { front_queue = w.front_queue ++ t ∷ [] }) else none

-- Post()
unfoldable pub post : World → ℕ → Option World
post w t = if w.inside t then none else push_front (record w { inside = update w.inside t true }) t

-- What PostWakeup() does on the status that its exchange finds
unfoldable pub wake : World → ℕ → Status → Option World
wake w t pending = some (set_status w t ready)
wake w t waiting = push_front (set_status w t ready) t
wake w t ready = some w
wake w t signaled = some w

-- PostWakeup(), of which only the exchange that goes ahead has an effect
unfoldable pub post_wakeup : World → ℕ → Option World
post_wakeup w t = wake w t (w.status t)

-- The loop of PostWakeup(), from the status loaded first. Each round gives the status that its
-- exchange finds, and whether the exchange, which may fail for no reason, goes ahead on a match. The
-- answer is the status that was replaced by READY, if one was; the outer `none` is a loop that has
-- not ended with the rounds.
unfoldable pub wakeup_loop : Status → List (Status × Bool) → Option (Option Status)
wakeup_loop ready rounds = some none
wakeup_loop signaled rounds = some none
wakeup_loop pending [] = none
wakeup_loop waiting [] = none
wakeup_loop pending ((found, swapped) ∷ rounds) =
    let rest = wakeup_loop found rounds in
    elim found [ pending ↦ (if swapped then some (some pending) else rest) | _ ↦ rest ]
wakeup_loop waiting ((found, swapped) ∷ rounds) =
    let rest = wakeup_loop found rounds in
    elim found [ waiting ↦ (if swapped then some (some waiting) else rest) | _ ↦ rest ]

-- What PostSignal() does behind its exchange, by the status that the exchange has found
unfoldable pub after_signal : World → ℕ → Status → Option World
after_signal w t waiting = push_front w t
after_signal w t _ = some w

-- PostSignal()
unfoldable pub post_signal : World → ℕ → Option World
post_signal w t = after_signal (set_status w t signaled) t (w.status t)

-- Post() before its push: the task is in the scheduler.
unfoldable pub start_post : World → ℕ → Option World
start_post w t =
    if w.inside t
    then none
    else some (record w { inside = update w.inside t true; flying = t ∷ w.flying })

-- PostWakeup() before its push, by the status that the exchange finds
unfoldable pub exchange_wakeup : World → ℕ → Status → World
exchange_wakeup w t pending = set_status w t ready
exchange_wakeup w t waiting = record (set_status w t ready) { flying = t ∷ w.flying }
exchange_wakeup w t ready = w
exchange_wakeup w t signaled = w

unfoldable pub start_wakeup : World → ℕ → World
start_wakeup w t = exchange_wakeup w t (w.status t)

-- PostSignal() before its push, by the status that the exchange finds
unfoldable pub exchange_signal : World → ℕ → Status → World
exchange_signal w t waiting = record (set_status w t signaled) { flying = t ∷ w.flying }
exchange_signal w t _ = set_status w t signaled

unfoldable pub start_signal : World → ℕ → World
start_signal w t = exchange_signal w t (w.status t)

-- ReceiveSignal()
unfoldable pub receive_signal : World → ℕ → Option (Bool × World)
receive_signal w t = do
  w1 ← touch w t
  some (elim (w1.status t) as (λ _. Bool × World) [
    | signaled ↦ (true, set_status w1 t pending)
    | _ ↦ (false, w1)
  ])

-- SetDeadline()
unfoldable pub set_deadline : World → ℕ → ℕ → Option World
set_deadline w t d = do w1 ← touch w t; some (set_deadline_of w1 t d)

-- AdjustDeadline()
unfoldable pub adjust_deadline : World → ℕ → ℕ → Option World
adjust_deadline w t d = do
  w1 ← touch w t
  some (if ltb d (w1.deadline t) then set_deadline_of w1 t d else w1)

-- SetDelay(), at the time `now`
unfoldable pub set_delay : World → ℕ → ℕ → ℕ → Option World
set_delay w now t delay = do w1 ← touch w t; some (set_deadline_of w1 t ((now + delay) % 2 ^ 64))

-- AdjustDelay(), at the time `now`
unfoldable pub adjust_delay : World → ℕ → ℕ → ℕ → Option World
adjust_delay w now t delay = adjust_deadline w t ((now + delay) % 2 ^ 64)

-- SetWait()
unfoldable pub set_wait : World → ℕ → Option World
set_wait w t = set_deadline w t infinite

-- IsSignaled()
unfoldable pub is_signaled : World → ℕ → Bool
is_signaled w t = elim (w.status t) [ signaled ↦ true | _ ↦ false ]

-- IsExpired()
unfoldable pub is_expired : World → ℕ → Option Bool
is_expired w t = touch w t >>= λ w1. some (w1.expired t)

-- GetDeadline()
unfoldable pub get_deadline : World → ℕ → Option ℕ
get_deadline w t = touch w t >>= λ w1. some (w1.deadline t)

-- Task::PrivExecute(), up to the call of the task's callback, which the model leaves to later steps
unfoldable pub start_callback : World → ℕ → Option World
start_callback w t = touch w t >>= λ w1. some (set_deadline_of w1 t 0)

-- PrivCreate(), for the index the heap's
unfoldable pub create_task : World → ℕ → World
create_task w t = record w {
  status = update w.status t pending;
  deadline = update w.deadline t 0;
  expired = update w.expired t false;
  inside = update w.inside t false;
}

-- operator<=
abbrev pub task_above : World → ℕ → ℕ → Bool
task_above w a b = leb (w.deadline a) (w.deadline b)
