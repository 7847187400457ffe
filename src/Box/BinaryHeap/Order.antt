-- ===== src/Box/BinaryHeap/Order.antt =====
-- The heap order, the agreement of the stored indices with the slots, and both while one item is in
-- the hand of a sifting loop.
use mathlib.Core.List.Perm
use mathlib.Core.List.{Perm}
use serverbox.Prelude.{
  ℕ, ◌<◌, ◌≡◌, ◌≢◌, Bool, true, false, Option, some, List, arith, ◌==◌, if◌then◌else◌, length,
  length-set, set, refl,
}
use serverbox.Box.BinaryHeap.{min_above, max_above}
use serverbox.Box.BinaryHeap.Slots.{at, at-set, set-perm, at-set-set, length-set-set}

-- What the comparator of a heap has to be: of two items one may stand above the other, and to stand
-- above is transitive.
pub record IsOrder (above : ℕ → ℕ → Bool) : Type 0 where
  pub total : (a b : ℕ) → above a b ≡ false → above b a ≡ true
  pub trans : (a b c : ℕ) → above a b ≡ true → above b c ≡ true → above a c ≡ true

-- The two comparators of the source are such orders, whatever the keys.
pub min_above-IsOrder : (k : ℕ → ℕ) → IsOrder (min_above k)
min_above-IsOrder k = record {
  total = λ a b e. ground (arith, e);
  trans = λ a b c e f. ground (arith, e, f);
}

pub max_above-IsOrder : (k : ℕ → ℕ) → IsOrder (max_above k)
max_above-IsOrder k = record {
  total = λ a b e. ground (arith, e);
  trans = λ a b c e f. ground (arith, e, f);
}

-- No index of the memory is wrong, and no item of the heap lacks its own.
pub record IsIndexed (a : List ℕ) (index : ℕ → Option ℕ) : Type 0 where
  pub points : (q j : ℕ) → index q ≡ some j → (j < length a) × (at a j ≡ q)
  pub stored : (j : ℕ) → j < length a → index (at a j) ≡ some j

-- The same, but for the item `tmp`, which belongs into slot `i` and into no other.
pub record IsLoose (a : List ℕ) (i tmp : ℕ) (index : ℕ → Option ℕ) : Type 0 where
  pub inside : i < length a
  pub here : at a i ≡ tmp
  pub only : (k : ℕ) → k < length a → at a k ≡ tmp → k ≡ i
  pub points : (q j : ℕ) → q ≢ tmp → index q ≡ some j → (j < length a) × (at a j ≡ q)
  pub stored : (j : ℕ) → j < length a → at a j ≢ tmp → index (at a j) ≡ some j

pub IsLoose-settle :
    (a : List ℕ) (i tmp : ℕ) (index : ℕ → Option ℕ)
    → IsLoose a i tmp index
    → IsIndexed a (λ q. if tmp == q then some i else index q)
IsLoose-settle a i tmp index w = record {
  points = λ q j e. ground (arith, w.points q j, w.inside, w.here);
  stored = λ j h. ground (arith, w.stored j h, w.only j h);
}

-- Any item can be taken into the hand.
pub IsIndexed-loosen :
    (a : List ℕ) (i : ℕ) (index : ℕ → Option ℕ)
    → IsIndexed a index
    → i < length a
    → IsLoose a i (at a i) index
IsIndexed-loosen a i index w h = record {
  inside = h;
  here = refl;
  only = λ k p e. ground (arith, w.stored k p, w.stored i h, e);
  points = λ q j _ e. w.points q j e;
  stored = λ j p _. w.stored j p;
}

-- The item `v` of slot `p` goes into the hole `i`, and the hole to `p`.
module _ (a : List ℕ) (i p tmp v : ℕ) (index : ℕ → Option ℕ) (hi : i < length a) (hp : p < length a)
    (ne : p ≢ i) (atp : at a p ≡ v) where
  at-before : (c : ℕ) → at (set a i tmp) c ≡ (if i == c then tmp else at a c)
  at-before c = at-set a i c tmp hi

  at-behind :
      (c : ℕ)
      → at (set (set a i v) p tmp) c ≡ (if p == c then tmp else if i == c then v else at a c)
  at-behind c = at-set-set a i p v tmp c hi hp

  length-before : length (set a i tmp) ≡ length a
  length-before = length-set a i tmp

  length-behind : length (set (set a i v) p tmp) ≡ length a
  length-behind = length-set-set a i p v tmp

  -- the item that moves is not the one in the hand
  moved-ne : IsLoose (set a i tmp) i tmp index → v ≢ tmp
  moved-ne w = λ e. ne (w.only p (omega (arith, length-before)) (ground (arith, at-before p, ne)))

  pub IsLoose-move :
      IsLoose (set a i tmp) i tmp index
      → IsLoose (set (set a i v) p tmp) p tmp (λ q. if v == q then some i else index q)
  IsLoose-move w = record {
    inside = omega (arith, length-behind);
    here = ground (arith, at-behind p);
    only = λ k s e.
        ground
          (arith, at-behind k, at-before k, w.only k, length-before, length-behind, moved-ne w);
    points = λ q j s e. ground (
      arith,
      at-behind j,
      at-before j,
      w.points q j,
      length-before,
      length-behind,
      moved-ne w,
      w.stored p,
      at-before p,
    );
    stored = λ j s e. ground (
      arith,
      at-behind j,
      at-before j,
      w.stored j,
      w.stored p,
      at-before p,
      length-before,
      length-behind,
      moved-ne w,
    );
  }

  pub move-perm : Perm (set (set a i v) p tmp) (set a i tmp)
  move-perm =
      let into_hole = set-perm a i v hi in
      let into_slot = rw kept at (set-perm (set a i v) p tmp (rw length-set hp)) in
      let in_hand = set-perm a i tmp hi in
      Perm.cons_inv (
        Perm.cons_inv (
          Perm.trans (Perm.swap (at a i) v _) (
            Perm.trans (Perm.cons (at a i) into_slot) (
              Perm.trans (Perm.swap tmp (at a i) _) (
                Perm.trans (Perm.cons tmp into_hole)
                  (Perm.trans (Perm.swap v tmp _) (Perm.cons v (Perm.symm in_hand))))))))
    where
      kept : at (set a i v) p ≡ v
      kept = ground (arith, at-set a i p v hi, atp)
