-- ===== src/Box/BinaryHeap/Operations/Removal.antt =====
-- RemoveTop, Remove and Pop.
use mathlib.Core.List.Perm
use mathlib.Core.List.{Perm}
use serverbox.Prelude.{
  true, ℕ, suc, ◌+◌, ◌-◌, ◌<◌, ◌≡◌, ◌≢◌, refl, Bool, none, some, [], ◌∷◌, ◌++◌, arith, length,
  length-set, length-take, set, take, inl, inr, ◌==◌, if◌then◌else◌, Bool-cases, ◌∙◌,
}
use serverbox.Box.BinaryHeap.{Heap, set_index, parent, pop_back, remove}
use serverbox.Box.BinaryHeap.Slots.{at, at-set, at-take, set-perm, take-at, snoc-perm}
use serverbox.Box.BinaryHeap.Order.{IsOrder, IsIndexed}
use serverbox.Box.BinaryHeap.Sift.{IsSifted, none-IsSifted}
use serverbox.Box.BinaryHeap.Sift.Moves.{placed, load_lem, place_lem}
use serverbox.Box.BinaryHeap.Sift.Up.{IsOpen}
use serverbox.Box.BinaryHeap.Operations.{IsHeap, update-IsSifted}

-- What a removal of the item `x` results in.
pub record IsRemoved (above : ℕ → ℕ → Bool) (h : Heap) (x : ℕ) (h' : Heap) : Type 0 where
  pub heap : IsHeap above h'
  pub same : Perm (x ∷ h'.items) h.items
  pub out : h'.index x ≡ none
  pub others : (q : ℕ) → h.index q ≡ none → h'.index q ≡ none

module _ (above : ℕ → ℕ → Bool) (order : IsOrder above) (h : Heap) (heap : IsHeap above h) (n : ℕ)
    (size : length h.items ≡ suc n) (i : ℕ) (inside : i < suc n) where
  unfoldable pub x : ℕ
  x = at h.items i

  -- the removed item is the last one: it is cut off
  unfoldable pub chopped : Heap
  chopped = pop_back (set_index h x none)

  pub chopped_lem : chopped ≡ record { items = take n h.items; index = (set_index h x none).index }
  unfolding chopped pop_back
  chopped_lem = rw size (ground arith)

  length_cut : length (take n h.items) ≡ n
  length_cut = omega (arith, length-take n h.items, size)

  pub chopped-IsRemoved : i ≡ n → IsRemoved above h x chopped
  unfolding x
  chopped-IsRemoved last = rw chopped_lem (record {
    heap = record {
      ordered = λ c p q. ground (
        arith,
        heap.ordered c p,
        at-take n h.items c,
        at-take n h.items (parent c),
        length_cut,
        size,
      );
      indexed = record {
        points = λ q j e.
            ground (arith, heap.indexed.points q j, at-take n h.items j, length_cut, size, last);
        stored = λ j p. ground (
          arith,
          heap.indexed.stored j,
          heap.indexed.stored i,
          at-take n h.items j,
          length_cut,
          size,
          last,
        );
      };
    };
    same = rw last (
        Perm.trans (Perm.symm (snoc-perm (take n h.items) (at h.items n)))
          (rw (take-at n h.items size) (Perm.refl _)));
    out = ground arith;
    others = λ q e. ground (arith, e);
  })

  -- another one: the last item takes its slot
  unfoldable pub moved : ℕ
  moved = at h.items n

  unfoldable pub shifted : Heap
  shifted = record {
    items = take n (set h.items i moved);
    index = (placed (set_index h x none) i moved).index;
  }

  pub length_shifted : length (take n (set h.items i moved)) ≡ n
  length_shifted =
      omega (arith, length-take n (set h.items i moved), length-set h.items i moved, size)

  at-shifted :
      (c : ℕ)
      → c < n
      → at (take n (set h.items i moved)) c ≡ (if i == c then moved else at h.items c)
  at-shifted c q = at-take n (set h.items i moved) c q ∙ at-set h.items i c moved (rw size inside)

  -- no two slots hold one item
  apart : (j k : ℕ) → j < length h.items → k < length h.items → at h.items j ≡ at h.items k → j ≡ k
  apart j k p q e = ground (arith, heap.indexed.stored j p, heap.indexed.stored k q, e)

  pub shifted-IsIndexed : i ≢ n → IsIndexed shifted.items shifted.index
  unfolding shifted moved x
  shifted-IsIndexed ne = record {
    points = λ q j e. ground (
      arith,
      heap.indexed.points q j,
      at-shifted j,
      length_shifted,
      size,
      heap.indexed.stored n,
      ne,
      apart i n,
      inside,
    );
    stored = λ j p. ground (
      arith,
      heap.indexed.stored j,
      at-shifted j,
      length_shifted,
      size,
      ne,
      apart i j,
      apart j n,
      apart i n,
      inside,
    );
  }

  pub shifted-IsOpen : i ≢ n → IsOpen above shifted.items i
  unfolding shifted
  shifted-IsOpen ne = record {
    edges = λ c p q nc np.
        ground (arith, heap.ordered c p, at-shifted c, at-shifted (parent c), length_shifted, size);
    bridged = λ c p q e r. ground (
      arith,
      heap.ordered c p,
      heap.ordered i r,
      at-shifted c,
      at-shifted (parent i),
      order.trans (at h.items (parent i)) (at h.items i) (at h.items c),
      length_shifted,
      size,
    );
  }

  shifted-perm : i ≢ n → Perm (x ∷ shifted.items) h.items
  unfolding shifted moved x
  shifted-perm ne =
      let written = set h.items i moved in
      let kept : at written n ≡ moved =
        ground (arith, at-set h.items i n moved (rw size inside), ne) in
      let whole : take n written ++ moved ∷ [] ≡ written =
        rw kept at (take-at n written (length-set h.items i moved ∙ size)) in
      let traded : Perm (at h.items i ∷ take n written ++ moved ∷ []) (moved ∷ h.items) =
        rw whole (set-perm h.items i moved (rw size inside)) in
      Perm.cons_inv (
        Perm.trans (Perm.swap _ _ _)
          (Perm.trans (Perm.cons _ (Perm.symm (snoc-perm (take n written) moved))) traded))

  pub shifted_lem : pop_back (placed (set_index h x none) i moved) ≡ shifted
  unfolding shifted pop_back
  shifted_lem = rw (length-set h.items i moved, size) (ground arith)

  -- a sift of the shifted heap is the result of the removal
  pub shifted-IsRemoved :
      (h' : Heap) → i ≢ n → IsSifted above shifted.items shifted.index h' → IsRemoved above h x h'
  shifted-IsRemoved h' ne s = record {
    heap = record { ordered = s.ordered; indexed = s.indexed };
    same = Perm.trans (Perm.cons x s.same) (shifted-perm ne);
    out = none-IsSifted above _ _ h' (shifted-IsIndexed ne) s x gone;
    others = λ q e. none-IsSifted above _ _ h' (shifted-IsIndexed ne) s q (still q e);
  }
    where
      gone : shifted.index x ≡ none
      gone = unfold shifted moved x in ground (arith, apart i n, ne, size, inside)

      still : (q : ℕ) → h.index q ≡ none → shifted.index q ≡ none
      still q e = unfold shifted moved x in ground (arith, e, heap.indexed.stored n, size)

  -- Remove, once the slot of the item is known
  pub remove_slot :
      h.index x ≡ some i → (h' : Heap) × (remove above h x ≡ some h') × IsRemoved above h x h'
  unfolding remove chopped x moved
  remove_slot at_i = elim (Bool-cases (i + 1 == suc n)) [
    | inl last ↦ (
      chopped,
      rw (at_i, load_lem h i hi, itself, size, last) refl,
      chopped-IsRemoved (ground (arith, last)),
    )
    | inr other ↦
        let ne : i ≢ n = ground (arith, other) in
        let (h', e, s) =
          update-IsSifted above order shifted i (shifted_in ne) (shifted-IsIndexed ne)
            (shifted-IsOpen ne) in
        (
          h',
          rw
              (
                at_i,
                load_lem h i hi,
                itself,
                size,
                other,
                below,
                load_lem (set_index h x none) n (rw size (omega arith)),
                place_lem (set_index h x none) i moved hi,
                shifted_lem,
                e,
              )
              refl,
          shifted-IsRemoved h' ne s,
        )
  ]
    where
      hi : i < length h.items
      hi = rw size inside

      itself : (at h.items i == at h.items i) ≡ true
      itself = ground arith

      below : suc n - 1 ≡ n
      below = omega arith

      shifted_in : i ≢ n → i < length shifted.items
      shifted_in ne = unfold shifted in omega (arith, length_shifted, ne, inside)
