-- ===== src/Box/BinaryHeap/Operations.antt =====
-- What the public operations do to a well-formed heap.
pub mod Insertion
pub mod Removal
pub mod Top
pub mod Change
use mathlib.Core.List.{Perm}
use serverbox.Prelude.{
  ◌>>=◌, ℕ, zero, suc, ◌<◌, ◌≡◌, ◌≢◌, refl, Bool, true, false, Option, none, some, List, ◌∷◌, arith,
  length, Bool-cases, inl, inr,
}
use serverbox.Box.BinaryHeap.{Heap, parent, update, update_up, update_down}
use serverbox.Box.BinaryHeap.Slots.{at}
use serverbox.Box.BinaryHeap.Order.{IsOrder, IsIndexed}
use serverbox.Box.BinaryHeap.Sift.{IsOrdered, IsSifted}
use serverbox.Box.BinaryHeap.Sift.Up.{IsOpen, update_up-IsSifted}
use serverbox.Box.BinaryHeap.Sift.Down.{IsDownOpen, update_down-IsSifted}

-- The invariant of the heap: no item stands above its parent, and the indices that are stored in the
-- objects are exactly the slots of the heap.
pub record IsHeap (above : ℕ → ℕ → Bool) (h : Heap) : Type 0 where
  pub ordered : IsOrdered above h.items
  pub indexed : IsIndexed h.items h.index

module _ (above : ℕ → ℕ → Bool) (order : IsOrder above) where
  refl_above : (a : ℕ) → above a a ≡ true
  refl_above a = elim (Bool-cases (above a a)) [ inl e ↦ e | inr e ↦ order.total a a e ]

  top_below :
      (k : ℕ) (a : List ℕ) (i : ℕ)
      → IsOrdered above a
      → i < k
      → i < length a
      → above (at a 0) (at a i) ≡ true
  top_below zero a i o f h = absurd (omega arith)
  top_below (suc k) a zero o f h = refl_above (at a 0)
  top_below (suc k) a (suc i) o f h =
      order.trans (at a 0) (at a (parent (suc i))) (at a (suc i))
        (top_below k a (parent (suc i)) o (omega arith) (omega arith)) (o (suc i) (omega arith) h)

  -- The item of slot 0 stands above every other.
  pub top-above :
      (a : List ℕ) (i : ℕ) → IsOrdered above a → i < length a → above (at a 0) (at a i) ≡ true
  top-above a i o h = top_below (suc i) a i o (omega arith) h

  -- PrivUpdate: the item goes up, or stays, or goes down.
  pub update-IsSifted :
      (h : Heap) (i : ℕ)
      → i < length h.items
      → IsIndexed h.items h.index
      → IsOpen above h.items i
      → (h' : Heap) × (update above h i ≡ some h') × IsSifted above h.items h.index h'
  unfolding update
  update-IsSifted h i hi w o = elim (update_up-IsSifted above order h i hi w o) [
    | inl (e, below) ↦
        let open_down : IsDownOpen above h.items i = record {
          edges = λ c p q ne. ground (arith, o.edges c p q, below);
          bridged = o.bridged;
        } in
        let (moved, h', e', s) = update_down-IsSifted above order h i hi w open_down in
        (h', rw (e, e') refl, s)
    | inr (h', e, s) ↦ (h', rw e refl, s)
  ]
