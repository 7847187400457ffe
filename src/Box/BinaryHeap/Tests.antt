-- ===== src/Box/BinaryHeap/Tests.antt =====
-- Runs of the heap, and the theorems at concrete heaps.
use mathlib.Core.List.{Perm}
use serverbox.Prelude.{
  ◌>>=◌, ℕ, ◌≡◌, refl, ◌<◌, ◌≢◌, ◌⊎◌, Bool, true, Option, none, some, List, [], ◌∷◌, arith, length,
  ◌==◌, if◌then◌else◌,
}
use serverbox.Box.BinaryHeap.{
  Heap, min_above, push, pop, remove, remove_top, update_item, update, update_up, update_down,
  up_loop, down_loop, top_child, load, place, pop_back, remove_first,
}
use serverbox.Box.BinaryHeap.Slots.{at}
use serverbox.Box.BinaryHeap.Order.{IsOrder, min_above-IsOrder}
use serverbox.Box.BinaryHeap.Operations.{IsHeap}
use serverbox.Box.BinaryHeap.Operations.Insertion.{push_correct}
use serverbox.Box.BinaryHeap.Operations.Removal.{IsRemoved}
use serverbox.Box.BinaryHeap.Operations.Top.{remove_correct, pop_correct}
use serverbox.Box.BinaryHeap.Operations.Change.{Agree, update_item_correct}

-- an object's key is its own number
abbrev key : ℕ → ℕ
key q = q

abbrev empty_heap : Heap
empty_heap = record { items = []; index = λ _. none }

abbrev push_all : (ℕ → ℕ → Bool) → Heap → List ℕ → Option Heap
push_all above h [] = some h
push_all above h (q ∷ qs) = push above h q >>= λ h'. push_all above h' qs

abbrev items_of : Option Heap → List ℕ
items_of none = []
items_of (some h) = h.items

pushed_in_order :
    items_of (push_all (min_above key) empty_heap (5 ∷ 3 ∷ 8 ∷ 1 ∷ 3 ∷ [])) ≡ 1 ∷ 3 ∷ 8 ∷ 5 ∷ 3 ∷ []
unfolding push update_up up_loop load place
pushed_in_order = refl

-- two objects, 3 above 5
abbrev pair : Heap
pair = record {
  items = 3 ∷ 5 ∷ [];
  index = λ q. if q == 3 then some 0 else if q == 5 then some 1 else none;
}

pair-IsHeap : IsHeap (min_above key) pair
unfolding at
pair-IsHeap = record {
  ordered = λ c p q. let one : c ≡ 1 = omega arith in rw one refl;
  indexed = record { points = λ q j e. ground (arith, e); stored = λ j p. ground arith };
}

abbrev by_key : IsOrder (min_above key)
by_key = min_above-IsOrder key

push_correct_example :
    (h' : Heap) × (push (min_above key) pair 4 ≡ some h')
    × IsHeap (min_above key) h'
    × Perm h'.items (4 ∷ 3 ∷ 5 ∷ [])
    × ((q : ℕ) → q ≢ 4 → pair.index q ≡ none → h'.index q ≡ none)
push_correct_example = push_correct (min_above key) by_key pair 4 pair-IsHeap refl

remove_correct_example :
    (h' : Heap) × (remove (min_above key) pair 3 ≡ some h') × IsRemoved (min_above key) pair 3 h'
remove_correct_example = remove_correct (min_above key) by_key pair 3 0 pair-IsHeap refl

pop_correct_example :
    ((length pair.items ≡ 0) × (pop (min_above key) pair ≡ some (none, pair)))
    ⊎ ((top : ℕ) × (h' : Heap) × (pop (min_above key) pair ≡ some (some top, h'))
        × IsRemoved (min_above key) pair top h'
        × ((i : ℕ) → i < length h'.items → min_above key top (at h'.items i) ≡ true))
pop_correct_example = pop_correct (min_above key) by_key pair pair-IsHeap

-- object 3 gets the key 9
abbrev new_key : ℕ → ℕ
new_key q = if q == 3 then 9 else q

agreement : Agree (min_above key) (min_above new_key) 3
agreement a b na nb = ground (arith, na, nb)

update_item_correct_example :
    (h' : Heap) × (update_item (min_above new_key) pair 3 ≡ some h')
    × IsHeap (min_above new_key) h'
    × Perm h'.items pair.items
    × ((q : ℕ) → pair.index q ≡ none → h'.index q ≡ none)
update_item_correct_example =
    update_item_correct (min_above key) (min_above new_key) by_key (min_above-IsOrder new_key) pair
      3 pair-IsHeap agreement 0 refl

updated : items_of (update_item (min_above new_key) pair 3) ≡ 5 ∷ 3 ∷ []
unfolding update_item update update_up update_down up_loop down_loop top_child load place
updated = refl

popped_second :
    (pop (min_above key) pair >>= λ (t, h). pop (min_above key) h >>= λ (u, g). u) ≡ some 5
unfolding pop remove_top remove_first update_down down_loop top_child load place pop_back
popped_second = refl
