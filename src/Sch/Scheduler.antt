-- ===== src/Sch/Scheduler.antt =====
-- src/mg/sch/TaskScheduler.cpp: the rounds of PrivSchedule() and PrivExecute(). The signals between
-- the workers, the mutex and the threads are not modelled: the worker that holds the scheduler's lock
-- makes the rounds. The ready queue is first in, first out (Box/SubQueue.antt). What PrivSchedule does
-- behind its last push, waiting for the front signal, changes no task.
use serverbox.Prelude.{
  ◌&&◌, ◌*◌, ◌%◌, ◌^◌, List, ℕ, zero, suc, ◌-◌, Bool, true, false, Option, none, some, [], ◌∷◌,
  ◌++◌, ◌>>=◌, ◌==◌, ltb, if◌then◌else◌,
}
use serverbox.Box.Links.{update}
use serverbox.Box.BinaryHeap.{push, remove, remove_top}
use serverbox.Sch.Task.{
  Status, pending, waiting, ready, signaled, World, infinite, set_status, start_callback,
  task_above,
}

-- `t->myIsExpired = e`
abbrev pub set_expired : World → ℕ → Bool → World
set_expired w t e = record w { expired = update w.expired t e }

-- `ready.Append(t)`
abbrev pub pick : World → ℕ → World
pick w t = record w { picked = w.picked ++ t ∷ [] }

-- What becomes of an expired task, by its status: one that a waker has seen waiting is in the front
-- queue too, and is left to it.
unfoldable pub expire : World → ℕ → Status → Option World
expire w t waiting = some (pick (set_status w t ready) t)
expire w t ready = some w
expire w t signaled = some w
expire w t pending = none

-- The body of the loop over the waiting tasks, for the top one
unfoldable pub wait_top : World → ℕ → ℕ → Option (Bool × World)
wait_top w now t =
    let gone : Option (Bool × World) = do
      (_, h) ← remove_top (task_above w) w.heap
      w1 ← expire (set_expired (record w { heap = h }) t true) t (w.status t)
      some (true, w1)
    in if ltb now (w.deadline t) then some (false, w) else gone

-- One round of the loop over the waiting tasks, by the array of the heap: whether it goes on, and the
-- tasks behind it
unfoldable pub wait_from : World → ℕ → List ℕ → Option (Bool × World)
wait_from w now [] = some (false, w)
wait_from w now (t ∷ ts) = wait_top w now t

unfoldable pub wait_round : World → ℕ → Option (Bool × World)
wait_round w now = wait_from w now w.heap.items

-- The loop over the waiting tasks. `++batch < maxBatch` holds for `maxBatch` - 1 rounds.
unfoldable pub wait_loop : ℕ → World → ℕ → Option World
wait_loop zero w now = some w
wait_loop (suc n) w now = elim (wait_round w now) [
  | none ↦ none
  | some (again, w1) ↦ let rest = wait_loop n w1 now in if again then rest else some w1
]

-- `t = myQueueFront.PopAll(tail); myQueuePending.Append(t, tail)`
unfoldable pub collect : World → World
collect w = record w { pending_queue = w.pending_queue ++ w.front_queue; front_queue = [] }

-- `if (t->myIndex >= 0) myQueueWaiting.Remove(t)`, and `ready.Append(t)`
unfoldable pub dispatch : World → ℕ → Option World
dispatch w t = elim (w.heap.index t) [
  | none ↦ some (pick w t)
  | some _ ↦ remove (task_above w) w.heap t >>= λ h. some (pick (record w { heap = h }) t)
]

-- The task goes to sleep, in the heap if its deadline is not infinite.
unfoldable pub sleep : World → ℕ → Option World
sleep w t =
    let w1 = set_status w t waiting in
    let stays : Option World = elim (w.heap.index t) [ none ↦ some w1 | some _ ↦ none ] in
    let goes = push (task_above w1) w1.heap t >>= λ h. some (record w1 { heap = h }) in
    if w.deadline t == infinite then stays else goes

-- A front task before its deadline, by its status
unfoldable pub pend_early : World → ℕ → Status → Option World
pend_early w t pending = sleep w t
pend_early w t waiting = none
pend_early w t _ = dispatch w t

-- A front task at its deadline or behind it, by its status
unfoldable pub pend_late : World → ℕ → Status → Option World
pend_late w t pending = dispatch (set_status w t ready) t
pend_late w t waiting = none
pend_late w t _ = dispatch w t

-- The body of the loop over the pending tasks, for the first one
unfoldable pub pend_first : World → ℕ → ℕ → Option World
pend_first w now t =
    if ltb now (w.deadline t)
    then pend_early (set_expired w t false) t (w.status t)
    else pend_late (set_expired w t true) t (w.status t)

-- The loop over the pending tasks, of `maxBatch` - 1 rounds at most
unfoldable pub pend_loop : ℕ → World → ℕ → Option World
pend_loop zero w now = some w
pend_loop (suc n) w now = elim w.pending_queue [
  | [] ↦ some w
  | t ∷ ts ↦ pend_first (record w { pending_queue = ts }) now t >>= λ w1. pend_loop n w1 now
]

-- The loop that hands the picked tasks to the ready queue, with the flush behind it
unfoldable pub hand_out : World → World
hand_out w = record w { ready_queue = w.ready_queue ++ w.picked; picked = [] }

-- PrivSchedule(), with the lock, at the time `now`
unfoldable pub schedule : World → ℕ → Option World
schedule w now = do
  w1 ← wait_loop (w.sched_batch - 1) w now
  w2 ← pend_loop (w1.sched_batch - 1) (collect w1) now
  some (hand_out w2)

-- What PrivExecute() does to the status
unfoldable pub unready : World → ℕ → Status → Option World
unready w t ready = some (set_status w t pending)
unready w t signaled = some w
unready w t _ = none

-- PrivExecute() of a task, which has left the ready queue
unfoldable pub run_task : World → ℕ → Option World
run_task w t =
    let run : Option World = do
      w1 ← unready (record w { inside = update w.inside t false }) t (w.status t)
      start_callback w1 t
    in if w.inside t then run else none

-- PrivExecute(), of what a consumer finds in the ready queue: whether there was a task
unfoldable pub execute_from : World → List ℕ → Option (Bool × World)
execute_from w [] = some (false, w)
execute_from w (t ∷ ts) = run_task (record w { ready_queue = ts }) t >>= λ w1. some (true, w1)

unfoldable pub execute : World → Option (Bool × World)
execute w = execute_from w w.ready_queue

-- `GetState()` of a worker
pub data WorkerState : Type 0 where
  idle : WorkerState
  running : WorkerState

pub all_idle : List WorkerState → Bool
all_idle [] = true
all_idle (idle ∷ workers) = all_idle workers
all_idle (running ∷ workers) = false

abbrev is_nil : List ℕ → Bool
is_nil [] = true
is_nil (t ∷ ts) = false

-- IsEmpty(), with the lock, of a scheduler with these workers
pub is_empty_scheduler : World → List WorkerState → Bool
is_empty_scheduler w workers =
    if all_idle workers
    then is_nil w.front_queue
      && is_nil w.heap.items
      && is_nil w.pending_queue
      && is_nil w.ready_queue
    else false

-- Start() and Stop(), for what they do to the batch size; `exec_batch` is `myExecBatchSize`
pub start_batch : World → ℕ → ℕ → World
start_batch w exec_batch threads = record w { sched_batch = (exec_batch * threads) % 2 ^ 32 }

pub stop_batch : World → ℕ → World
stop_batch w exec_batch = record w { sched_batch = exec_batch }
