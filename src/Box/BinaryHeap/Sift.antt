-- ===== src/Box/BinaryHeap/Sift.antt =====
-- The sifting loops: each puts the item in the hand where the heap order wants it.
pub mod Moves
pub mod Up
pub mod Down
use mathlib.Core.List.{Perm}
use serverbox.Prelude.{ℕ, ◌<◌, ◌≤◌, ◌≡◌, ◌≢◌, Bool, true, Option, none, ◌∙◌, List, length, arith}
use serverbox.Box.BinaryHeap.{Heap, parent}
use serverbox.Box.BinaryHeap.Slots.{at}
use serverbox.Box.BinaryHeap.Order.{IsIndexed}

-- No item stands above its parent.
abbrev pub IsOrdered : (ℕ → ℕ → Bool) → List ℕ → Type 0
IsOrdered above a =
    (slot : ℕ) → 0 < slot → slot < length a → above (at a (parent slot)) (at a slot) ≡ true

-- The parent of slot `i` may stand above the children of slot `i`.
abbrev pub IsBridged : (ℕ → ℕ → Bool) → List ℕ → ℕ → Type 0
IsBridged above a i =
    (slot : ℕ)
    → 0 < slot
    → slot < length a
    → parent slot ≡ i
    → 0 < i
    → above (at a (parent i)) (at a slot) ≡ true

-- What a sift of the array `a` results in: the same items, in order, each with its index, and no
-- other item's index touched.
pub record IsSifted (above : ℕ → ℕ → Bool) (a : List ℕ) (index : ℕ → Option ℕ) (h : Heap)
    : Type 0 where
  pub ordered : IsOrdered above h.items
  pub same : Perm h.items a
  pub size : length h.items ≡ length a
  pub indexed : IsIndexed h.items h.index
  pub others : (q : ℕ) → ((j : ℕ) → j < length a → at a j ≢ q) → h.index q ≡ index q

-- An object outside the heap keeps its empty index.
pub none-IsSifted :
    (above : ℕ → ℕ → Bool) (a : List ℕ) (index : ℕ → Option ℕ) (h : Heap)
    → IsIndexed a index
    → IsSifted above a index h
    → (q : ℕ) → index q ≡ none
    → h.index q ≡ none
none-IsSifted above a index h w s q n = s.others q (λ j p e. ground (arith, w.stored j p, n, e)) ∙ n
