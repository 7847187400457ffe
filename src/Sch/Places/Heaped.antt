-- ===== src/Sch/Places/Heaped.antt =====
-- What dispatching and sleeping do to the heap of the waiting tasks.
use serverbox.Prelude.{
  ℕ, ◌≤◌, ◌≡◌, ◌≢◌, refl, ◌⊎◌, inl, inr, some, ◌∷◌, arith, ◌==◌, count, count-Perm, Option-cases,
  Bool-cases,
}
use serverbox.Box.BinaryHeap.{Heap}
use serverbox.Box.BinaryHeap.Operations.{IsHeap}
use serverbox.Box.BinaryHeap.Operations.Insertion.{push_correct}
use serverbox.Box.BinaryHeap.Operations.Top.{remove_correct}
use serverbox.Sch.Task.{waiting, World, infinite, set_status, task_above}
use serverbox.Sch.Scheduler.{pick, dispatch, sleep}
use serverbox.Sch.Places.{asleep, task_above-IsOrder, none-asleep, asleep-none}

-- Dispatch of a task takes it out of the heap, if it is there, and picks it.
pub dispatch_lem :
    (w : World) (t : ℕ)
    → IsHeap (task_above w) w.heap
    → asleep w t ≤ 1
    → (h : Heap) × (dispatch w t ≡ some (pick (record w { heap = h }) t))
      × IsHeap (task_above w) h
      × (count t h.items ≡ 0)
      × ((u : ℕ) → u ≢ t → count u h.items ≡ asleep w u)
unfolding dispatch
dispatch_lem w t heap le = elim (Option-cases (w.heap.index t)) [
  | inl n ↦ (w.heap, rw (n, dispatch) refl, heap, none-asleep w t heap n, λ u ne. refl)
  | inr (i, e) ↦
      let (h, f, r) = remove_correct (task_above w) (task_above-IsOrder w) w.heap t i heap e in
      (
        h,
        rw (e, dispatch) (rw f refl),
        r.heap,
        ground (arith, le, count-Perm t (t ∷ h.items) w.heap.items r.same),
        λ u ne. ground (arith, ne, count-Perm u (t ∷ h.items) w.heap.items r.same),
      )
]

-- A finite deadline puts the task into the heap, and an infinite one nowhere.
pub sleep_lem :
    (w : World) (t : ℕ)
    → IsHeap (task_above w) w.heap
    → asleep w t ≡ 0
    → (h : Heap) × (sleep w t ≡ some (record (set_status w t waiting) { heap = h }))
      × IsHeap (task_above w) h
      × (((w.deadline t ≡ infinite) × (count t h.items ≡ 0))
          ⊎ ((w.deadline t ≢ infinite) × (count t h.items ≡ 1)))
      × ((u : ℕ) → u ≢ t → count u h.items ≡ asleep w u)
unfolding sleep
sleep_lem w t heap z =
    let free = asleep-none w t heap z in
    elim (Bool-cases (w.deadline t == infinite)) [
      | inl e ↦ (w.heap, rw e (rw free refl), heap, inl (ground (arith, e), z), λ u ne. refl)
      | inr e ↦
          let (h, f, i, same, _) =
            push_correct (task_above w) (task_above-IsOrder w) w.heap t heap free in
          (
            h,
            rw e (rw f refl),
            i,
            inr (
              ground (arith, e),
              ground (arith, z, count-Perm t h.items (t ∷ w.heap.items) same),
            ),
            λ u ne. ground (arith, ne, count-Perm u h.items (t ∷ w.heap.items) same),
          )
    ]
