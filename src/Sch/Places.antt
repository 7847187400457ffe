-- ===== src/Sch/Places.antt =====
-- Where the tasks are: each is where its status tells. One that has been woken may be in the heap too.
pub mod Moves
pub mod Picking
pub mod Dispatch
pub mod Expiry
pub mod Execution
pub mod Schedule
pub mod Heaped
pub mod Flights
pub mod Outside
pub mod Runs
mod Tests
use serverbox.Prelude.{
  ℕ, zero, suc, ◌+◌, ◌≤◌, ◌<◌, ◌≡◌, ◌≢◌, refl, sym, ◌∙◌, ◌⊎◌, inl, inr, Bool, true, false, Option,
  none, some, List, [], ◌∷◌, ◌++◌, arith, ◌==◌, if◌then◌else◌, length, count, count-append,
  count-Perm, Option-cases, ℕ_discrete,
}
use serverbox.Box.Links.{update}
use serverbox.Box.BinaryHeap.{Heap, parent, min_above}
use serverbox.Box.BinaryHeap.Slots.{at}
use serverbox.Box.BinaryHeap.Order.{IsIndexed, IsOrder, min_above-IsOrder}
use serverbox.Box.BinaryHeap.Operations.{IsHeap}
use serverbox.Sch.Task.{Status, pending, waiting, ready, signaled, World, infinite, task_above}

-- How often a task is on its way to the queues of the tasks to look at or in them, in the queues of
-- the tasks to run, and in the heap
abbrev pub to_look : World → ℕ → ℕ
to_look w t = count t w.flying + count t w.front_queue + count t w.pending_queue

abbrev pub to_run : World → ℕ → ℕ
to_run w t = count t w.picked + count t w.ready_queue

abbrev pub asleep : World → ℕ → ℕ
asleep w t = count t w.heap.items

-- A task of a status, in the scheduler or not, by these numbers and its deadline. A task that sleeps
-- without a deadline is in no queue. One that has been woken before its deadline is in the heap too.
abbrev pub IsPlaced : Status → Bool → ℕ → ℕ → ℕ → ℕ → Type 0
IsPlaced waiting false look run sleep d = (look ≡ 0) × (look ≡ 1)
IsPlaced pending false look run sleep d = (look ≡ 0) × (run ≡ 0) × (sleep ≡ 0)
IsPlaced ready false look run sleep d = (look ≡ 0) × (run ≡ 0) × (sleep ≡ 0)
IsPlaced signaled false look run sleep d = (look ≡ 0) × (run ≡ 0) × (sleep ≡ 0)
IsPlaced waiting true look run sleep d =
    (look ≡ 0) × (run ≡ 0) × (((d ≡ infinite) × (sleep ≡ 0)) ⊎ ((d ≢ infinite) × (sleep ≡ 1)))
IsPlaced pending true look run sleep d = (look ≡ 1) × (run ≡ 0) × (sleep ≡ 0)
IsPlaced ready true look run sleep d =
    ((look ≡ 1) × (run ≡ 0) × (sleep ≤ 1)) ⊎ ((look ≡ 0) × (run ≡ 1) × (sleep ≡ 0))
IsPlaced signaled true look run sleep d =
    ((look ≡ 1) × (run ≡ 0) × (sleep ≤ 1)) ⊎ ((look ≡ 0) × (run ≡ 1) × (sleep ≡ 0))

abbrev pub IsPlacedAt : World → ℕ → Type 0
IsPlacedAt w t =
    IsPlaced (w.status t) (w.inside t) (to_look w t) (to_run w t) (asleep w t) (w.deadline t)

pub record IsOrderly (w : World) : Type 0 where
  pub heap : IsHeap (task_above w) w.heap
  pub placed : (t : ℕ) → IsPlacedAt w t

pub task_above-IsOrder : (w : World) → IsOrder (task_above w)
task_above-IsOrder w = min_above-IsOrder w.deadline

-- What two worlds agree on for one task
pub record Same (w w' : World) (t : ℕ) : Type 0 where
  pub status : w'.status t ≡ w.status t
  pub inside : w'.inside t ≡ w.inside t
  pub look : to_look w' t ≡ to_look w t
  pub run : to_run w' t ≡ to_run w t
  pub sleep : asleep w' t ≡ asleep w t
  pub deadline : w'.deadline t ≡ w.deadline t

pub equal_fields :
    (s s' : Status) (i i' : Bool) (l l' r r' h h' d d' : ℕ)
    → s' ≡ s
    → i' ≡ i
    → l' ≡ l
    → r' ≡ r
    → h' ≡ h
    → d' ≡ d
    → IsPlaced s i l r h d
    → IsPlaced s' i' l' r' h' d'
equal_fields s s' i i' l l' r r' h h' d d' a b c e f g p = rw (a, b, c, e, f, g) p

Same-IsPlacedAt : (w w' : World) (t : ℕ) → Same w w' t → IsPlacedAt w t → IsPlacedAt w' t
Same-IsPlacedAt w w' t s p =
    equal_fields _ _ _ _ _ _ _ _ _ _ _ _ s.status s.inside s.look s.run s.sleep s.deadline p

-- An operation on one task keeps the order if it keeps the heap and places its task, and the other
-- tasks stay as they are.
pub settle :
    (w w' : World) (t : ℕ)
    → IsOrderly w
    → IsHeap (task_above w') w'.heap
    → IsPlacedAt w' t
    → ((u : ℕ) → u ≢ t → Same w w' u)
    → IsOrderly w'
settle w w' t o h p s = record {
  heap = h;
  placed = λ u. elim (ℕ_discrete u t) [
    | yes e ↦ rw e p
    | no ne ↦ Same-IsPlacedAt w w' u (s u ne) (o.placed u)
  ];
}

count-none : (t : ℕ) (a : List ℕ) → ((j : ℕ) → j < length a → at a j ≢ t) → count t a ≡ 0
unfolding at
count-none t [] f = refl
count-none t (x ∷ a) f =
    let rest = count-none t a (λ j h. f (suc j) (omega arith)) in
    ground (arith, f 0 (omega arith), rest)

count-at : (a : List ℕ) (j : ℕ) → j < length a → 0 < count (at a j) a
unfolding at
count-at [] j h = absurd (omega arith)
count-at (x ∷ a) zero h = ground arith
count-at (x ∷ a) (suc j) h = omega (arith, count-at a j (omega arith))

-- A task has no index exactly if it is not in the heap.
pub none-asleep :
    (w : World) (t : ℕ) → IsHeap (task_above w) w.heap → w.heap.index t ≡ none → asleep w t ≡ 0
none-asleep w t h e =
    count-none t w.heap.items (λ j p same. ground (arith, h.indexed.stored j p, same, e))

pub asleep-some :
    (w : World) (t i : ℕ) → IsHeap (task_above w) w.heap → w.heap.index t ≡ some i → 0 < asleep w t
asleep-some w t i h e =
    let (inside, here) = h.indexed.points t i e in rw here at (count-at w.heap.items i inside)

pub asleep-none :
    (w : World) (t : ℕ) → IsHeap (task_above w) w.heap → asleep w t ≡ 0 → w.heap.index t ≡ none
asleep-none w t h e = elim (Option-cases (w.heap.index t)) [
  | inl n ↦ n
  | inr (i, s) ↦ absurd (omega (arith, asleep-some w t i h s, e))
]
