-- ===== src/Sch/Places/Execution.antt =====
-- A worker takes a task from the ready queue and runs it.
use serverbox.Prelude.{
  ℕ, ◌<◌, ◌≡◌, ◌≢◌, refl, ap, ◌∙◌, ◌⊎◌, inl, inr, Bool, true, false, some, List, [], ◌∷◌, arith,
  length, count,
}
use serverbox.Box.Links.{update, update-eq, update-ne}
use serverbox.Box.BinaryHeap.{Heap, parent}
use serverbox.Box.BinaryHeap.Slots.{at}
use serverbox.Box.BinaryHeap.Operations.{IsHeap}
use serverbox.Sch.Task.{
  Status, pending, waiting, ready, signaled, World, touch, start_callback, task_above,
}
use serverbox.Sch.Scheduler.{unready, run_task, execute_from, execute}
use serverbox.Sch.Places.{
  to_look, to_run, asleep, IsPlaced, equal_fields, IsOrderly, settle, count-at,
}
use serverbox.Sch.Places.Expiry.{List-cases}

-- A heap without the task stays one when the task gets a new deadline.
pub agree-IsHeap :
    (above below : ℕ → ℕ → Bool) (t : ℕ) (h : Heap)
    → IsHeap above h
    → count t h.items ≡ 0
    → ((a b : ℕ) → a ≢ t → b ≢ t → below a b ≡ above a b)
    → IsHeap below h
agree-IsHeap above below t h heap z agree = record {
  ordered = λ c p q.
      let absent : (j : ℕ) → j < length h.items → at h.items j ≢ t =
        λ j r e. ground (arith, z, e, count-at h.items j r) in
      agree (at h.items (parent c)) (at h.items c) (absent (parent c) (omega arith)) (absent c q)
      ∙ heap.ordered c p q;
  indexed = heap.indexed;
}

-- what is known of a task that is found among those to run
runner :
    (s : Status) (i : Bool) (l r h d : ℕ)
    → IsPlaced s i l r h d
    → 0 < r
    → (i ≡ true) × (l ≡ 0) × (r ≡ 1) × (h ≡ 0) × ((s ≡ ready) ⊎ (s ≡ signaled))
runner pending false l r h d p q = absurd (omega (arith, p.1, q))
runner waiting false l r h d p q = absurd (omega (arith, p.0, p.1))
runner ready false l r h d p q = absurd (omega (arith, p.1, q))
runner signaled false l r h d p q = absurd (omega (arith, p.1, q))
runner pending true l r h d p q = absurd (omega (arith, p.1, q))
runner waiting true l r h d p q = absurd (omega (arith, p.1, q))
runner ready true l r h d (inl p) q = absurd (omega (arith, p.1, q))
runner ready true l r h d (inr p) q = (refl, p.0, p.1, p.2, inl refl)
runner signaled true l r h d (inl p) q = absurd (omega (arith, p.1, q))
runner signaled true l r h d (inr p) q = (refl, p.0, p.1, p.2, inr refl)

outside_place :
    (s : Status) (l r h d : ℕ)
    → (s ≡ pending) ⊎ (s ≡ signaled)
    → l ≡ 0
    → r ≡ 0
    → h ≡ 0
    → IsPlaced s false l r h d
outside_place s l r h d (inl e) a b c = rw e (a, b, c)
outside_place s l r h d (inr e) a b c = rw e (a, b, c)

-- The task has been taken off the ready queue to run. No signal is lost.
abbrev pub IsTaken : World → World → ℕ → List ℕ → Type 0
IsTaken w w' t ts =
    (w'.ready_queue ≡ ts)
    × (w'.deadline t ≡ 0)
    × (((w.status t ≡ ready) × (w'.status t ≡ pending))
        ⊎ ((w.status t ≡ signaled) × (w'.status t ≡ signaled)))

-- the world when the callback of a task starts
abbrev started : World → (ℕ → Status) → ℕ → List ℕ → World
started w st t ts = record w {
  status = st;
  inside = update w.inside t false;
  deadline = update w.deadline t 0;
  ready_queue = ts;
}

module _ (w : World) (t : ℕ) (ts : List ℕ) (o : IsOrderly w) (first : w.ready_queue ≡ t ∷ ts)
    (look : to_look w t ≡ 0) (run : to_run w t ≡ 1) (sleep : asleep w t ≡ 0) where
  started-IsOrderly :
      (st : ℕ → Status)
      → (st t ≡ pending) ⊎ (st t ≡ signaled)
      → ((u : ℕ) → u ≢ t → st u ≡ w.status u)
      → IsOrderly (started w st t ts)
  started-IsOrderly st s others =
      settle w (started w st t ts) t o
        (agree-IsHeap (task_above w) (task_above (started w st t ts)) t w.heap o.heap sleep
          (λ a b na nb. ground (arith, na, nb)))
        (equal_fields _ _ false _ _ _ _ _ _ _ 0 _ refl (update-eq w.inside t false) refl refl refl
          (update-eq w.deadline t 0)
          (outside_place (st t) _ _ _ 0 s look (ground (arith, run, ap (count t) first)) sleep))
        (λ u ne. record {
          status = others u ne;
          inside = update-ne w.inside t false u ne;
          look = refl;
          run = ground (arith, ne, ap (count u) first);
          sleep = refl;
          deadline = update-ne w.deadline t 0 u ne;
        })

  run_task-IsOrderly :
      w.inside t ≡ true
      → (w.status t ≡ ready) ⊎ (w.status t ≡ signaled)
      → (w' : World) × (run_task (record w { ready_queue = ts }) t ≡ some w')
        × IsOrderly w'
        × (w'.inside t ≡ false)
        × IsTaken w w' t ts
  unfolding run_task unready start_callback touch
  run_task-IsOrderly i (inl e) =
      let out : update w.inside t false t ≡ false = update-eq w.inside t false in
      (
        _,
        rw i (rw e (rw out refl)),
        started-IsOrderly (update w.status t pending) (inl (update-eq w.status t pending))
            (λ u ne. update-ne w.status t pending u ne),
        out,
        (refl, update-eq w.deadline t 0, inl (e, update-eq w.status t pending)),
      )
  run_task-IsOrderly i (inr e) =
      let out : update w.inside t false t ≡ false = update-eq w.inside t false in
      (
        _,
        rw i (rw e (rw out refl)),
        started-IsOrderly w.status (inr e) (λ u ne. refl),
        out,
        (refl, update-eq w.deadline t 0, inr (e, e)),
      )

-- A worker finds no task to run, or takes the first one off the ready queue, and fails no assertion:
-- the task leaves the scheduler, with its deadline reset, and is pending if it was ready, and still
-- signaled if it was signaled; every task is in its place.
pub execute-IsOrderly :
    (w : World)
    → IsOrderly w
    → ((w.ready_queue ≡ []) × (execute w ≡ some (false, w)))
      ⊎ ((t : ℕ) × (ts : List ℕ) × (w' : World) × (w.ready_queue ≡ t ∷ ts)
          × (execute w ≡ some (true, w'))
          × IsOrderly w'
          × (w'.inside t ≡ false)
          × IsTaken w w' t ts)
unfolding execute execute_from
execute-IsOrderly w o = elim (List-cases w.ready_queue) [
  | inl e ↦ inl (e, ap (execute_from w) e)
  | inr (t, ts, e) ↦
      let one : 0 < to_run w t = ground (arith, ap (count t) e) in
      let (i, l, r, h, s) =
        runner (w.status t) (w.inside t) _ _ _ (w.deadline t) (o.placed t) one in
      let (w', f, g, out, k) = run_task-IsOrderly w t ts o e l r h i s in
      inr (t, ts, w', e, ap (execute_from w) e ∙ rw f refl, g, out, k)
]
