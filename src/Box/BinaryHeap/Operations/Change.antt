-- ===== src/Box/BinaryHeap/Operations/Change.antt =====
-- Update and UpdateTop, behind a change of the key of one item. The comparator reads the keys of the
-- objects: `before` is the one by which the heap was last in order, `above` the one that sees the new
-- key.
use mathlib.Core.List.{Perm}
use serverbox.Prelude.{ℕ, ◌≡◌, ◌≢◌, refl, Bool, true, none, some, arith, ◌==◌}
use serverbox.Box.BinaryHeap.{Heap, parent, update_item, update_top}
use serverbox.Box.BinaryHeap.Slots.{at}
use serverbox.Box.BinaryHeap.Order.{IsOrder}
use serverbox.Box.BinaryHeap.Sift.{none-IsSifted}
use serverbox.Box.BinaryHeap.Sift.Moves.{load_lem}
use serverbox.Box.BinaryHeap.Sift.Up.{IsOpen}
use serverbox.Box.BinaryHeap.Sift.Down.{IsDownOpen, update_down-IsSifted}
use serverbox.Box.BinaryHeap.Operations.{IsHeap, update-IsSifted}

-- The comparators differ on one item only.
abbrev pub Agree : (ℕ → ℕ → Bool) → (ℕ → ℕ → Bool) → ℕ → Type 0
Agree before above item = (a b : ℕ) → a ≢ item → b ≢ item → above a b ≡ before a b

module _ (before above : ℕ → ℕ → Bool) (was : IsOrder before) (order : IsOrder above) (h : Heap)
    (item : ℕ) (heap : IsHeap before h) (agree : Agree before above item) where
  changed-IsOpen : (i : ℕ) → h.index item ≡ some i → IsOpen above h.items i
  changed-IsOpen i e = record {
    edges = λ c p q nc np. ground (
      arith,
      heap.ordered c p,
      agree (at h.items (parent c)) (at h.items c),
      heap.indexed.stored c,
      heap.indexed.stored (parent c),
      e,
    );
    bridged = λ c p q f r. ground (
      arith,
      heap.ordered c p,
      heap.ordered i r,
      heap.indexed.points item i e,
      heap.indexed.stored c,
      heap.indexed.stored (parent i),
      agree (at h.items (parent i)) (at h.items c),
      was.trans (at h.items (parent i)) (at h.items i) (at h.items c),
      e,
    );
  }

  -- Update of an item of the heap whose key has changed restores the heap order, with the same items.
  pub update_item_correct :
      (i : ℕ)
      → h.index item ≡ some i
      → (h' : Heap) × (update_item above h item ≡ some h')
        × IsHeap above h'
        × Perm h'.items h.items
        × ((q : ℕ) → h.index q ≡ none → h'.index q ≡ none)
  unfolding update_item
  update_item_correct i e =
      let (inside, here) = heap.indexed.points item i e in
      let found : (at h.items i == item) ≡ true = ground (arith, here) in
      let (h', f, s) = update-IsSifted above order h i inside heap.indexed (changed-IsOpen i e) in
      (
        h',
        rw (e, load_lem h i inside, found) f,
        record { ordered = s.ordered; indexed = s.indexed },
        s.same,
        none-IsSifted above h.items h.index h' heap.indexed s,
      )

  -- UpdateTop, if the item of slot 0 is the one that has changed, does so too.
  pub update_top_correct :
      h.index item ≡ some 0
      → (h' : Heap) × (update_top above h ≡ some h')
        × IsHeap above h'
        × Perm h'.items h.items
        × ((q : ℕ) → h.index q ≡ none → h'.index q ≡ none)
  unfolding update_top
  update_top_correct e =
      let (inside, here) = heap.indexed.points item 0 e in
      let o = changed-IsOpen 0 e in
      let open_down : IsDownOpen above h.items 0 = record {
        edges = λ c p q np. o.edges c p q (ground (arith, p)) np;
        bridged = o.bridged;
      } in
      let (b, h', f, s) = update_down-IsSifted above order h 0 inside heap.indexed open_down in
      (
        h',
        rw f refl,
        record { ordered = s.ordered; indexed = s.indexed },
        s.same,
        none-IsSifted above h.items h.index h' heap.indexed s,
      )
