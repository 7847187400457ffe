-- ===== src/Box/BinaryHeap/Sift/Down.antt =====
-- PrivUpdateDown: an item that a child may stand above sinks.
use mathlib.Core.List.Perm
use serverbox.Prelude.{
  ℕ, zero, suc, ◌+◌, ◌<◌, ◌≡◌, refl, ◌≢◌, Bool, true, false, some, List, arith, leb, length,
  length-set, set, Bool-cases, inl, inr,
}
use serverbox.Box.BinaryHeap.{Heap, parent, left_child, top_child, down_loop, update_down}
use serverbox.Box.BinaryHeap.Slots.{at, set-at, at-set, at-set-set, length-set-set}
use serverbox.Box.BinaryHeap.Order.{IsOrder, IsIndexed, IsLoose, IsIndexed-loosen, IsLoose-move}
use serverbox.Box.BinaryHeap.Sift.{IsOrdered, IsBridged, IsSifted}
use serverbox.Box.BinaryHeap.Sift.Moves.{
  placed, load_lem, place_lem, finish-IsSifted, IsSifted-move,
}

-- Only the edges below slot `i` may be out of order.
pub record IsDownOpen (above : ℕ → ℕ → Bool) (a : List ℕ) (i : ℕ) : Type 0 where
  pub edges :
      (slot : ℕ)
      → 0 < slot
      → slot < length a
      → parent slot ≢ i
      → above (at a (parent slot)) (at a slot) ≡ true
  pub bridged : IsBridged above a i

-- `t` is a child of slot `i`, and stands above the other one.
pub record IsTopChild (above : ℕ → ℕ → Bool) (a : List ℕ) (i t : ℕ) : Type 0 where
  pub inside : t < length a
  pub positive : 0 < t
  pub child : parent t ≡ i
  pub least :
      (slot : ℕ)
      → 0 < slot
      → slot < length a
      → parent slot ≡ i
      → slot ≢ t
      → above (at a t) (at a slot) ≡ true

module _ (above : ℕ → ℕ → Bool) (order : IsOrder above) where
  top_child_lem :
      (h : Heap) (i : ℕ)
      → left_child i < length h.items
      → (t : ℕ) × (top_child above h i ≡ some t) × IsTopChild above h.items i t
  unfolding top_child
  top_child_lem h i hl = elim (Bool-cases (leb (length h.items) (left_child i + 1))) [
    | inl one ↦ rw one (
      left_child i,
      refl,
      record {
        inside = hl;
        positive = omega arith;
        child = omega arith;
        least = λ c p q e ne. absurd (ground (arith, one));
      },
    )
    | inr two ↦
        rw (two, load_lem h (left_child i) hl, load_lem h (left_child i + 1) (ground (arith, two)))
          (elim (Bool-cases (above (at h.items (left_child i)) (at h.items (left_child i + 1)))) [
            | inl l ↦ rw l (
              left_child i,
              refl,
              record {
                inside = hl;
                positive = omega arith;
                child = omega arith;
                least = λ c p q e ne. let same : c ≡ left_child i + 1 = omega arith in rw same l;
              },
            )
            | inr r ↦ rw r (
              left_child i + 1,
              refl,
              record {
                inside = ground (arith, two);
                positive = omega arith;
                child = omega arith;
                least = λ c p q e ne.
                    let same : c ≡ left_child i = omega arith in
                    rw same
                      (order.total (at h.items (left_child i)) (at h.items (left_child i + 1)) r);
              },
            )
          ])
  ]

  move-IsDownOpen :
      (a : List ℕ) (i t tmp : ℕ)
      → i < length a
      → IsTopChild above a i t
      → above (at a t) tmp ≡ true
      → IsDownOpen above (set a i tmp) i
      → IsDownOpen above (set (set a i (at a t)) t tmp) t
  move-IsDownOpen a i t tmp hi k up w =
      let behind = λ (c : ℕ). at-set-set a i t (at a t) tmp c hi k.inside in
      let before = λ (c : ℕ). at-set a i c tmp hi in
      let sizes = length-set-set a i t (at a t) tmp in
      let size = length-set a i tmp in
      record {
        edges = λ c p q ne. ground (
          arith,
          behind c,
          behind (parent c),
          before c,
          before (parent c),
          before t,
          w.edges c p,
          w.bridged t k.positive,
          k.least c p,
          k.child,
          k.positive,
          sizes,
          size,
          up,
        );
        bridged = λ c p q e r. ground (
          arith,
          behind c,
          behind (parent t),
          before c,
          before t,
          w.edges c p,
          k.child,
          k.positive,
          sizes,
          size,
        );
      }

  down_loop-IsSifted :
      (fuel : ℕ) (h : Heap) (tmp i t : ℕ)
      → length h.items < fuel + i
      → i < length h.items
      → IsTopChild above h.items i t
      → IsLoose (set h.items i tmp) i tmp h.index
      → IsDownOpen above (set h.items i tmp) i
      → above (at h.items t) tmp ≡ true
      → (h' : Heap) × (down_loop above fuel h tmp i t ≡ some h')
        × IsSifted above (set h.items i tmp) h.index h'
  unfolding down_loop
  down_loop-IsSifted zero h tmp i t f hi k w u up = absurd (omega arith)
  down_loop-IsSifted (suc fuel) h tmp i t f hi k w u up =
      rw (load_lem h t k.inside, place_lem h i (at h.items t) hi)
        (elim (Bool-cases (leb (length h1.items) (left_child t))) [
          | inl leaf ↦ rw leaf (
              finish-IsSifted above h i t tmp hi k.inside ne w
                (λ c p q. u'.edges c p q (ground (arith, leaf, length-set h1.items t tmp))))
          | inr inner ↦
              let (t', chosen, k') = top_child_lem h1 t (ground (arith, inner)) in
              rw (inner, chosen, load_lem h1 t' k'.inside)
                (elim (Bool-cases (above (at h1.items t') tmp)) [
                  | inl again ↦ rw again (
                      let (h', e, s) =
                        down_loop-IsSifted fuel h1 tmp t t'
                          (omega (arith, length-set h.items i (at h.items t), k.positive, k.child))
                          ht k'
                          (IsLoose-move h.items i t tmp (at h.items t) h.index hi k.inside ne refl
                            w)
                          u' again in
                      (h', e, IsSifted-move above h h' i t tmp hi k.inside ne s))
                  | inr settled ↦ rw settled (
                      finish-IsSifted above h i t tmp hi k.inside ne w (λ c p q. ground (
                        arith,
                        u'.edges c p q,
                        at-set h1.items t c tmp ht,
                        at-set h1.items t t tmp ht,
                        order.total (at h1.items t') tmp settled,
                        k'.least c p,
                        order.trans tmp (at h1.items t') (at h1.items c),
                        length-set h1.items t tmp,
                      )))
                ])
        ])
    where
      ne : t ≢ i
      ne = omega (arith, k.positive, k.child)

      h1 : Heap
      h1 = placed h i (at h.items t)

      ht : t < length h1.items
      ht = rw length-set k.inside

      u' : IsDownOpen above (set h1.items t tmp) t
      u' = move-IsDownOpen h.items i t tmp hi k up u

  -- An item that is below its parent sinks to its place.
  pub update_down-IsSifted :
      (h : Heap) (i : ℕ)
      → i < length h.items
      → IsIndexed h.items h.index
      → IsDownOpen above h.items i
      → (moved : Bool) × (h' : Heap) × (update_down above h i ≡ some (moved, h'))
        × IsSifted above h.items h.index h'
  unfolding update_down
  update_down-IsSifted h i hi w u = elim (Bool-cases (leb (length h.items) (left_child i))) [
    | inl leaf ↦ rw leaf (false, h, refl, unmoved (λ c p q. u.edges c p q (ground (arith, leaf))))
    | inr inner ↦
        let (t, chosen, k) = top_child_lem h i (ground (arith, inner)) in
        rw (inner, chosen, load_lem h i hi, load_lem h t k.inside)
          (elim (Bool-cases (above (at h.items i) (at h.items t))) [
            | inl stays ↦ rw stays (
              false,
              h,
              refl,
              unmoved (λ c p q. ground (
                arith,
                u.edges c p q,
                k.least c p q,
                order.trans (at h.items i) (at h.items t) (at h.items c) stays,
              )),
            )
            | inr sinks ↦ rw sinks (
                let (h', e, s) =
                  down_loop-IsSifted (suc (length h.items)) h (at h.items i) i t (omega arith) hi k
                    (rw (set-at h.items i) (IsIndexed-loosen h.items i h.index w hi))
                    (rw (set-at h.items i) u) (order.total (at h.items i) (at h.items t) sinks) in
                (true, h', rw e refl, rw (set-at h.items i) at s))
          ])
  ]
    where
      unmoved : IsOrdered above h.items → IsSifted above h.items h.index h
      unmoved o = record {
        ordered = o;
        same = Perm.refl _;
        size = refl;
        indexed = w;
        others = λ q n. refl;
      }
