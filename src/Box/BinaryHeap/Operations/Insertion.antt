-- ===== src/Box/BinaryHeap/Operations/Insertion.antt =====
-- Push.
use mathlib.Core.List.Perm
use mathlib.Core.List.{Perm}
use serverbox.Prelude.{
  ℕ, ◌+◌, ◌<◌, ◌≡◌, ◌≢◌, refl, Bool, none, some, [], ◌∷◌, ◌++◌, arith, length, length-append, inl,
  inr, ℕ_discrete,
}
use serverbox.Box.BinaryHeap.{Heap, set_index, parent, push}
use serverbox.Box.BinaryHeap.Slots.{at, at-append, at-append_last, snoc-perm}
use serverbox.Box.BinaryHeap.Order.{IsOrder, IsIndexed}
use serverbox.Box.BinaryHeap.Sift.{IsSifted, none-IsSifted}
use serverbox.Box.BinaryHeap.Sift.Up.{IsOpen, update_up-IsSifted}
use serverbox.Box.BinaryHeap.Operations.{IsHeap}

module _ (above : ℕ → ℕ → Bool) (order : IsOrder above) (h : Heap) (item : ℕ)
    (heap : IsHeap above h) (out : h.index item ≡ none) where
  grown : Heap
  grown = set_index (record h { items = h.items ++ item ∷ [] }) item (some (length h.items))

  size : length (h.items ++ item ∷ []) ≡ length h.items + 1
  size = length-append h.items (item ∷ [])

  old : (j : ℕ) → j < length h.items → at (h.items ++ item ∷ []) j ≡ at h.items j
  old j q = at-append h.items (item ∷ []) j q

  new : at (h.items ++ item ∷ []) (length h.items) ≡ item
  new = at-append_last h.items item

  grown-IsIndexed : IsIndexed grown.items grown.index
  unfolding grown
  grown-IsIndexed = record {
    points = λ q j e. ground (arith, heap.indexed.points q j, old j, size, new);
    stored = λ j p. ground (arith, heap.indexed.stored j, old j, size, new, out);
  }

  grown-IsOpen : IsOpen above grown.items (length h.items)
  unfolding grown
  grown-IsOpen = record {
    edges = λ c p q ne _. ground (arith, heap.ordered c p, old c, old (parent c), size);
    bridged = λ c p q e r. absurd (omega (arith, size));
  }

  pushed : (h' : Heap) × (push above h item ≡ some h') × IsSifted above grown.items grown.index h'
  unfolding push grown
  pushed =
      elim (update_up-IsSifted above order grown (length h.items) (omega (arith, size))
        grown-IsIndexed grown-IsOpen) [
          | inl (e, below) ↦ (
            grown,
            rw e refl,
            record {
              ordered = λ c p q. elim (ℕ_discrete c (length h.items)) [
                | yes same ↦ rw same (below (omega arith))
                | no ne ↦ grown-IsOpen.edges c p q ne (omega (arith, size))
              ];
              same = Perm.refl _;
              size = refl;
              indexed = grown-IsIndexed;
              others = λ q n. refl;
            },
          )
          | inr (h', e, s) ↦ (h', rw e refl, s)
        ]

  -- Push of an item that is in no heap keeps the heap well-formed, adds exactly this item, and
  -- touches the index of no other object outside the heap.
  pub push_correct :
      (h' : Heap) × (push above h item ≡ some h')
      × IsHeap above h'
      × Perm h'.items (item ∷ h.items)
      × ((q : ℕ) → q ≢ item → h.index q ≡ none → h'.index q ≡ none)
  unfolding grown
  push_correct =
      let (h', e, s) = pushed in
      (
        h',
        e,
        record { ordered = s.ordered; indexed = s.indexed },
        Perm.trans s.same (snoc-perm h.items item),
        λ q ne n. none-IsSifted above _ _ h' grown-IsIndexed s q (ground (arith, ne, n)),
      )
