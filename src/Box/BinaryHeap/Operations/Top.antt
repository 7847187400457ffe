-- ===== src/Box/BinaryHeap/Operations/Top.antt =====
-- The theorems on Remove, RemoveTop and Pop, from what Removal shows of the two ways to fill a slot.
use serverbox.Prelude.{
  ℕ, suc, ◌-◌, ◌<◌, ◌≡◌, ◌≢◌, refl, Bool, true, false, none, some, arith, length, inl, inr, ◌==◌,
  Bool-cases, Option-cases, ◌⊎◌, subst,
}
use serverbox.Box.BinaryHeap.{Heap, set_index, remove_top, remove, pop}
use serverbox.Box.BinaryHeap.Slots.{at}
use serverbox.Box.BinaryHeap.Order.{IsOrder}
use serverbox.Box.BinaryHeap.Sift.Moves.{load_lem, place_lem}
use serverbox.Box.BinaryHeap.Sift.Down.{IsDownOpen, update_down-IsSifted}
use serverbox.Box.BinaryHeap.Operations.{IsHeap, top-above}
use serverbox.Box.BinaryHeap.Operations.Removal.{
  IsRemoved, x, moved, shifted, chopped, shifted_lem, chopped-IsRemoved, shifted-IsRemoved,
  shifted-IsIndexed, shifted-IsOpen, length_shifted, remove_slot,
}

-- Remove of an item of the heap takes out exactly this item, sets its index to -1, and keeps the heap
-- well-formed.
pub remove_correct :
    (above : ℕ → ℕ → Bool) (order : IsOrder above) (h : Heap) (item i : ℕ)
    → IsHeap above h
    → h.index item ≡ some i
    → (h' : Heap) × (remove above h item ≡ some h') × IsRemoved above h item h'
remove_correct above order h item i heap e =
    let (inside, here) = heap.indexed.points item i e in
    let n = length h.items - 1 in
    let size : length h.items ≡ suc n = omega (arith, inside) in
    subst (λ y. (h' : Heap) × (remove above h y ≡ some h') × IsRemoved above h y h') here
      (unfold x in remove_slot above order h heap n size i (rw size at inside) (rw here e))

module _ (above : ℕ → ℕ → Bool) (order : IsOrder above) (h : Heap) (heap : IsHeap above h) (n : ℕ)
    (size : length h.items ≡ suc n) where
  first_out :
      (h' : Heap) × (remove_top above h ≡ some (true, h')) × IsRemoved above h (at h.items 0) h'
  unfolding remove_top chopped x moved
  first_out = elim (Bool-cases (suc n == 1)) [
    | inl one ↦ (
      chopped above order h heap n size 0 (omega arith),
      rw (size, nonzero, load_lem h 0 hi, one) refl,
      chopped-IsRemoved above order h heap n size 0 (omega arith) (ground (arith, one)),
    )
    | inr more ↦
        let ne : 0 ≢ n = ground (arith, more) in
        let lt : 0 < suc n = omega arith in
        let open_at = shifted-IsOpen above order h heap n size 0 lt ne in
        let open_down : IsDownOpen above (shifted above order h heap n size 0 lt).items 0 = record {
          edges = λ c p q np. open_at.edges c p q (ground (arith, p)) np;
          bridged = open_at.bridged;
        } in
        let (b, h', e, s) =
          update_down-IsSifted above order (shifted above order h heap n size 0 lt) 0 (inside ne)
            (shifted-IsIndexed above order h heap n size 0 lt ne) open_down in
        (
          h',
          rw
              (
                size,
                nonzero,
                load_lem h 0 hi,
                more,
                below,
                load_lem (set_index h (at h.items 0) none) n (rw size (omega arith)),
                place_lem (set_index h (at h.items 0) none) 0 (at h.items n) hi,
                shifted_lem above order h heap n size 0 lt,
                e,
              )
              refl,
          shifted-IsRemoved above order h heap n size 0 lt h' ne s,
        )
  ]
    where
      hi : 0 < length h.items
      hi = omega (arith, size)

      nonzero : (suc n == 0) ≡ false
      nonzero = ground arith

      below : suc n - 1 ≡ n
      below = omega arith

      inside : 0 ≢ n → 0 < length (shifted above order h heap n size 0 (omega arith)).items
      inside ne =
          unfold shifted in
          omega (arith, length_shifted above order h heap n size 0 (omega arith), ne)

-- RemoveTop of a heap with items takes out the item of slot 0, which stands above every other, and
-- keeps the heap well-formed.
pub remove_top_correct :
    (above : ℕ → ℕ → Bool) (order : IsOrder above) (h : Heap)
    → IsHeap above h
    → 0 < length h.items
    → (h' : Heap) × (remove_top above h ≡ some (true, h'))
      × IsRemoved above h (at h.items 0) h'
      × ((i : ℕ) → i < length h.items → above (at h.items 0) (at h.items i) ≡ true)
remove_top_correct above order h heap pos =
    let n = length h.items - 1 in
    let (h', e, r) = first_out above order h heap n (omega (arith, pos)) in
    (h', e, r, λ i hi. top-above above order h.items i heap.ordered hi)

-- Pop of an empty heap finds nothing and changes nothing; of another, it hands out an item that
-- stands above all that stay, and keeps the heap well-formed.
pub pop_correct :
    (above : ℕ → ℕ → Bool) (order : IsOrder above) (h : Heap)
    → IsHeap above h
    → ((length h.items ≡ 0) × (pop above h ≡ some (none, h)))
      ⊎ ((top : ℕ) × (h' : Heap) × (pop above h ≡ some (some top, h'))
          × IsRemoved above h top h'
          × ((i : ℕ) → i < length h'.items → above top (at h'.items i) ≡ true))
unfolding pop
pop_correct above order h heap = elim (Bool-cases (length h.items == 0)) [
  | inl empty ↦ inl (ground (arith, empty), rw empty refl)
  | inr some_left ↦
      let pos : 0 < length h.items = ground (arith, some_left) in
      let (h', e, r, least) = remove_top_correct above order h heap pos in
      inr (
        at h.items 0,
        h',
        rw (some_left, load_lem h 0 pos, e) refl,
        r,
        λ i hi. stays h' r least i hi,
      )
]
  where
    stays :
        (h' : Heap)
        → IsRemoved above h (at h.items 0) h'
        → ((i : ℕ) → i < length h.items → above (at h.items 0) (at h.items i) ≡ true)
        → (i : ℕ) → i < length h'.items
        → above (at h.items 0) (at h'.items i) ≡ true
    stays h' r least i hi = elim (Option-cases (h.index (at h'.items i))) [
      | inl none_there ↦
          absurd (ground (arith, r.others (at h'.items i) none_there, r.heap.indexed.stored i hi))
      | inr (k, there) ↦
          let (inside, here) = heap.indexed.points (at h'.items i) k there in
          rw (← here) (least k inside)
    ]
