-- ===== src/Sch/Places/Schedule.antt =====
-- A whole scheduling, of any batch size.
use serverbox.Prelude.{
  ℕ, zero, suc, ◌-◌, ◌≡◌, refl, ◌∙◌, inl, inr, Option, some, List, [], ◌∷◌, arith, count-append,
  ◌>>=◌,
}
use mathlib.Core.List.{append-nil}
use serverbox.Sch.Task.{World}
use serverbox.Sch.Scheduler.{collect, hand_out, pend_first, pend_loop, wait_loop, schedule}
use serverbox.Sch.Places.{equal_fields, IsOrderly}
use serverbox.Sch.Places.Dispatch.{pend_first-IsOrderly}
use serverbox.Sch.Places.Expiry.{wait_loop-IsOrderly, List-cases}

pub collect-IsOrderly : (w : World) → IsOrderly w → IsOrderly (collect w)
unfolding collect
collect-IsOrderly w o = record {
  heap = o.heap;
  placed = λ t.
      equal_fields _ _ _ _ _ _ _ _ _ _ _ _ refl refl
        (omega (arith, count-append t w.pending_queue w.front_queue)) refl refl refl (o.placed t);
}

pub hand_out-IsOrderly : (w : World) → IsOrderly w → IsOrderly (hand_out w)
unfolding hand_out
hand_out-IsOrderly w o = record {
  heap = o.heap;
  placed = λ t.
      equal_fields _ _ _ _ _ _ _ _ _ _ _ _ refl refl refl
        (omega (arith, count-append t w.ready_queue w.picked)) refl refl (o.placed t);
}

pend_loop_nil : (n : ℕ) (w : World) (now : ℕ) → w.pending_queue ≡ [] → pend_loop n w now ≡ some w
unfolding pend_loop
pend_loop_nil zero w now e = refl
pend_loop_nil (suc n) w now e = ground (arith, e)

pend_loop_cons :
    (n : ℕ) (w w1 : World) (now t : ℕ) (ts : List ℕ)
    → w.pending_queue ≡ t ∷ ts
    → pend_first (record w { pending_queue = ts }) now t ≡ some w1
    → pend_loop (suc n) w now ≡ pend_loop n w1 now
unfolding pend_loop
pend_loop_cons n w w1 now t ts e f = rw (e, pend_loop) (rw f refl)

-- The loop over the pending tasks fails no assertion, whatever its bound, and leaves every task in its
-- place.
pub pend_loop-IsOrderly :
    (n : ℕ) (w : World) (now : ℕ)
    → IsOrderly w
    → (w' : World) × (pend_loop n w now ≡ some w') × IsOrderly w'
pend_loop-IsOrderly zero w now o = (w, unfold pend_loop in refl, o)
pend_loop-IsOrderly (suc n) w now o = elim (List-cases w.pending_queue) [
  | inl e ↦ (w, pend_loop_nil (suc n) w now e, o)
  | inr (t, ts, e) ↦
      let (w1, f, i, _, _) = pend_first-IsOrderly w now t ts o e in
      let (w', g, k) = pend_loop-IsOrderly n w1 now i in
      (w', pend_loop_cons n w w1 now t ts e f ∙ g, k)
]

-- A scheduling fails no assertion, whatever the batch size and the time, and leaves every task in its
-- place: none is lost, and none is in two queues, but that a task that has been woken may still be in
-- the heap too while it is in the front or in the pending queue. No picked task is left over.
pub schedule-IsOrderly :
    (w : World) (now : ℕ)
    → IsOrderly w
    → (w' : World) × (schedule w now ≡ some w') × IsOrderly w' × (w'.picked ≡ [])
unfolding schedule hand_out
schedule-IsOrderly w now o =
    let (w1, e, i) = wait_loop-IsOrderly (w.sched_batch - 1) w now o in
    let (w2, f, k) =
      pend_loop-IsOrderly (w1.sched_batch - 1) (collect w1) now (collect-IsOrderly w1 i) in
    (_, rw e (rw f refl), hand_out-IsOrderly w2 k, refl)

schedule_one :
    (w : World) (now : ℕ) → w.sched_batch ≡ 1 → schedule w now ≡ some (hand_out (collect w))
unfolding schedule wait_loop pend_loop
schedule_one w now e = rw e refl

-- schedulings at given times, one after the other
abbrev pub schedules : List ℕ → World → Option World
schedules [] w = some w
schedules (now ∷ times) w = schedule w now >>= schedules times

-- With a batch size of one, as one worker with sub-queues of size one has it, no number of
-- schedulings at any times ever hands a task to the ready queue, whatever tasks are posted or expired.
pub schedules_starve :
    (times : List ℕ) (w : World)
    → w.sched_batch ≡ 1
    → w.picked ≡ []
    → (w' : World) × (schedules times w ≡ some w') × (w'.ready_queue ≡ w.ready_queue)
unfolding collect hand_out
schedules_starve [] w e p = (w, refl, refl)
schedules_starve (now ∷ times) w e p =
    let (w', f, r) = schedules_starve times (hand_out (collect w)) e refl in
    (w', rw (schedule_one w now e) f, r ∙ rw p (append-nil w.ready_queue))
