-- ===== src/Box/BinaryHeap/Slots.antt =====
-- The slots of an array: reads, writes, and what a write does to the multiset of the items.
use mathlib.Core.List.{perm_middle, append-nil}
use mathlib.Core.List.Perm
use mathlib.Core.List.{Perm}
use serverbox.Prelude.{
  ℕ, zero, suc, ◌<◌, ◌≡◌, refl, ap, ◌∙◌, some, List, [], ◌∷◌, ◌++◌, arith, ◌==◌, if◌then◌else◌,
  length, length-set, get_elem?, set, take,
}

-- The item in a slot; a slot out of bounds reads as 0, and is never asked for below.
unfoldable pub at : List ℕ → ℕ → ℕ
at [] i = 0
at (x ∷ a) zero = x
at (x ∷ a) (suc i) = at a i

pub get_elem?-at : (a : List ℕ) (i : ℕ) → i < length a → get_elem? a i ≡ some (at a i)
unfolding at
get_elem?-at [] i h = elim h [ ]
get_elem?-at (x ∷ a) zero h = refl
get_elem?-at (x ∷ a) (suc i) h = get_elem?-at a i (omega arith)

pub at-set :
    (a : List ℕ) (i j v : ℕ) → i < length a → at (set a i v) j ≡ (if i == j then v else at a j)
unfolding at
at-set [] i j v h = elim h [ ]
at-set (x ∷ a) zero zero v h = refl
at-set (x ∷ a) zero (suc j) v h = ground arith
at-set (x ∷ a) (suc i) zero v h = ground arith
at-set (first ∷ rest) (suc i) (suc j) v inside = ground (arith, at-set rest i j v)

pub at-append : (a b : List ℕ) (i : ℕ) → i < length a → at (a ++ b) i ≡ at a i
unfolding at
at-append [] b i h = elim h [ ]
at-append (x ∷ a) b zero h = refl
at-append (x ∷ a) b (suc i) h = at-append a b i (omega arith)

pub at-append_last : (a : List ℕ) (x : ℕ) → at (a ++ x ∷ []) (length a) ≡ x
unfolding at
at-append_last [] x = refl
at-append_last (y ∷ a) x = at-append_last a x

pub at-take : (n : ℕ) (a : List ℕ) (i : ℕ) → i < n → at (take n a) i ≡ at a i
unfolding at
at-take zero a i h = elim h [ ]
at-take (suc n) [] i h = refl
at-take (suc n) (x ∷ a) zero h = refl
at-take (suc n) (x ∷ a) (suc i) h = at-take n a i (omega arith)

-- A write trades the old item for the new one.
pub set-perm : (a : List ℕ) (i v : ℕ) → i < length a → Perm (at a i ∷ set a i v) (v ∷ a)
unfolding at
set-perm [] i v h = elim h [ ]
set-perm (old ∷ a) zero v h = Perm.swap v old a
set-perm (first ∷ a) (suc i) v h =
    Perm.trans (Perm.swap first (at a i) (set a i v))
      (Perm.trans (Perm.cons first (set-perm a i v (omega arith))) (Perm.swap v first a))

pub take-at : (n : ℕ) (a : List ℕ) → length a ≡ suc n → take n a ++ at a n ∷ [] ≡ a
unfolding at
take-at zero (x ∷ []) h = refl
take-at (suc n) (x ∷ a) h = ap (◌∷◌ x) (take-at n a (omega arith))
take-at n a h = absurd (omega arith)

pub snoc-perm : (a : List ℕ) (x : ℕ) → Perm (a ++ x ∷ []) (x ∷ a)
snoc-perm a x = rw (append-nil a) at (perm_middle {a = x} a [])

-- The array after the item `v` has gone into slot `i`, and `tmp` into slot `p`.
pub at-set-set :
    (a : List ℕ) (i p v tmp c : ℕ)
    → i < length a
    → p < length a
    → at (set (set a i v) p tmp) c ≡ (if p == c then tmp else if i == c then v else at a c)
at-set-set a i p v tmp c hi hp =
    rw (at-set (set a i v) p c tmp (rw length-set hp), at-set a i c v hi)

pub length-set-set : (a : List ℕ) (i p v tmp : ℕ) → length (set (set a i v) p tmp) ≡ length a
length-set-set a i p v tmp = length-set (set a i v) p tmp ∙ length-set a i v

pub set-at : (a : List ℕ) (i : ℕ) → set a i (at a i) ≡ a
unfolding at
set-at [] i = refl
set-at (x ∷ a) zero = refl
set-at (x ∷ a) (suc i) = ap (◌∷◌ x) (set-at a i)
