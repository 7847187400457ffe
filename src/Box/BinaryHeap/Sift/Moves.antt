-- ===== src/Box/BinaryHeap/Sift/Moves.antt =====
-- The steps that both sifting loops are made of: reads and writes of slots, and what a result of the
-- rest of a loop says of the array before the step.
use mathlib.Core.List.Perm
use serverbox.Prelude.{ℕ, ◌<◌, ◌≡◌, refl, sym, ◌≢◌, Bool, some, arith, length, length-set, set, ◌∙◌}
use serverbox.Box.BinaryHeap.{Heap, set_index, load, place}
use serverbox.Box.BinaryHeap.Slots.{at, at-set, at-set-set, length-set-set, get_elem?-at}
use serverbox.Box.BinaryHeap.Order.{IsLoose, IsLoose-settle, IsLoose-move, move-perm}
use serverbox.Box.BinaryHeap.Sift.{IsOrdered, IsSifted}

-- the heap after `tree[i] = v; SetIndex(v, i)`
abbrev pub placed : Heap → ℕ → ℕ → Heap
placed h i v = set_index (record h { items = set h.items i v }) v (some i)

pub load_lem : (h : Heap) (i : ℕ) → i < length h.items → load h i ≡ some (at h.items i)
unfolding load
load_lem h i hi = get_elem?-at h.items i hi

pub place_lem : (h : Heap) (i v : ℕ) → i < length h.items → place h i v ≡ some (placed h i v)
unfolding place
place_lem h i v hi = ground arith

module _ (above : ℕ → ℕ → Bool) where
  -- The loop ends: the item goes into the hole.
  pub placed-IsSifted :
      (h : Heap) (i tmp : ℕ)
      → IsLoose (set h.items i tmp) i tmp h.index
      → IsOrdered above (set h.items i tmp)
      → IsSifted above (set h.items i tmp) h.index (placed h i tmp)
  placed-IsSifted h i tmp w o = record {
    ordered = o;
    same = Perm.refl _;
    size = refl;
    indexed = IsLoose-settle (set h.items i tmp) i tmp h.index w;
    others = λ q n. ground (arith, n i w.inside, w.here);
  }

  -- The loop goes on, with the item of slot `p` in the old hole `i`, and the hole at `p`.
  pub IsSifted-move :
      (h h' : Heap) (i p tmp : ℕ)
      → i < length h.items
      → p < length h.items
      → p ≢ i
      → IsSifted above
          (set (placed h i (at h.items p)).items p tmp)
          (placed h i (at h.items p)).index
          h'
      → IsSifted above (set h.items i tmp) h.index h'
  IsSifted-move h h' i p tmp hi hp ne s = record {
    ordered = s.ordered;
    same = Perm.trans s.same (move-perm h.items i p tmp (at h.items p) h.index hi hp ne refl);
    size = s.size ∙ sizes ∙ sym size;
    indexed = s.indexed;
    others = λ q n. s.others q (absent q n) ∙ kept q n;
  }
    where
      sizes : length (set (set h.items i (at h.items p)) p tmp) ≡ length h.items
      sizes = length-set-set h.items i p (at h.items p) tmp

      size : length (set h.items i tmp) ≡ length h.items
      size = length-set h.items i tmp

      kept :
          (q : ℕ)
          → ((j : ℕ) → j < length (set h.items i tmp) → at (set h.items i tmp) j ≢ q)
          → (placed h i (at h.items p)).index q ≡ h.index q
      kept q n = ground (arith, n p, at-set h.items i p tmp hi, size, ne)

      absent :
          (q : ℕ)
          → ((j : ℕ) → j < length (set h.items i tmp) → at (set h.items i tmp) j ≢ q)
          → (j : ℕ) → j < length (set (set h.items i (at h.items p)) p tmp)
          → at (set (set h.items i (at h.items p)) p tmp) j ≢ q
      absent q n j hj = λ e. ground (
        arith,
        at-set-set h.items i p (at h.items p) tmp j hi hp,
        at-set h.items i j tmp hi,
        at-set h.items i i tmp hi,
        at-set h.items i p tmp hi,
        n i,
        n j,
        n p,
        size,
        sizes,
        e,
      )

  -- The loop ends behind such a step.
  pub finish-IsSifted :
      (h : Heap) (i p tmp : ℕ)
      → i < length h.items
      → p < length h.items
      → p ≢ i
      → IsLoose (set h.items i tmp) i tmp h.index
      → IsOrdered above (set (placed h i (at h.items p)).items p tmp)
      → (h' : Heap) × (place (placed h i (at h.items p)) p tmp ≡ some h')
        × IsSifted above (set h.items i tmp) h.index h'
  finish-IsSifted h i p tmp hi hp ne w o =
      let h1 = placed h i (at h.items p) in
      (
        placed h1 p tmp,
        place_lem h1 p tmp (rw length-set hp),
        IsSifted-move h _ i p tmp hi hp ne (
            placed-IsSifted h1 p tmp
              (IsLoose-move h.items i p tmp (at h.items p) h.index hi hp ne refl w) o),
      )
