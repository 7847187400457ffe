-- ===== src/Box/BinaryHeap/Sift/Up.antt =====
-- PrivUpdateUp: an item that may stand above its parent rises.
use serverbox.Prelude.{
  ℕ, zero, suc, ◌<◌, ◌≡◌, refl, ◌≢◌, Bool, true, false, some, List, arith, ◌==◌, length, length-set,
  set, Bool-cases, inl, inr, ◌⊎◌,
}
use serverbox.Box.BinaryHeap.{Heap, parent, up_loop, update_up}
use serverbox.Box.BinaryHeap.Slots.{at, set-at, at-set, at-set-set, length-set-set}
use serverbox.Box.BinaryHeap.Order.{IsOrder, IsIndexed, IsLoose, IsIndexed-loosen, IsLoose-move}
use serverbox.Box.BinaryHeap.Sift.{IsBridged, IsSifted}
use serverbox.Box.BinaryHeap.Sift.Moves.{
  placed, load_lem, place_lem, finish-IsSifted, IsSifted-move,
}

-- Only the edge above slot `i` may be out of order.
pub record IsUpOpen (above : ℕ → ℕ → Bool) (a : List ℕ) (i : ℕ) : Type 0 where
  pub edges :
      (slot : ℕ)
      → 0 < slot
      → slot < length a
      → slot ≢ i
      → above (at a (parent slot)) (at a slot) ≡ true
  pub bridged : IsBridged above a i

-- The edges at slot `i`, to its parent and to its children, may be out of order.
pub record IsOpen (above : ℕ → ℕ → Bool) (a : List ℕ) (i : ℕ) : Type 0 where
  pub edges :
      (slot : ℕ)
      → 0 < slot
      → slot < length a
      → slot ≢ i
      → parent slot ≢ i
      → above (at a (parent slot)) (at a slot) ≡ true
  pub bridged : IsBridged above a i

module _ (above : ℕ → ℕ → Bool) (order : IsOrder above) where
  -- the item of slot `p` goes down into the hole `i` below it
  move-IsUpOpen :
      (a : List ℕ) (i tmp : ℕ)
      → i < length a
      → 0 < i
      → above tmp (at a (parent i)) ≡ true
      → IsUpOpen above (set a i tmp) i
      → IsUpOpen above (set (set a i (at a (parent i))) (parent i) tmp) (parent i)
  move-IsUpOpen a i tmp hi pos up w =
      let hp : parent i < length a = omega arith in
      let behind = λ (c : ℕ). at-set-set a i (parent i) (at a (parent i)) tmp c hi hp in
      let before = λ (c : ℕ). at-set a i c tmp hi in
      let sizes = length-set-set a i (parent i) (at a (parent i)) tmp in
      let size = length-set a i tmp in
      record {
        edges = λ c p q ne. ground (
          arith,
          behind c,
          behind (parent c),
          before c,
          before (parent c),
          before (parent i),
          w.edges c p,
          w.bridged c p,
          order.trans tmp (at a (parent i)) (at a c),
          sizes,
          size,
          up,
        );
        bridged = λ c p q e r. ground (
          arith,
          behind c,
          behind (parent (parent i)),
          before c,
          before (parent i),
          before (parent (parent i)),
          w.edges (parent i) r,
          w.edges c p,
          order.trans (at a (parent (parent i))) (at a (parent i)) (at a c),
          sizes,
          size,
        );
      }

  up_loop-IsSifted :
      (fuel : ℕ) (h : Heap) (tmp i : ℕ)
      → i < fuel
      → 0 < i
      → IsLoose (set h.items i tmp) i tmp h.index
      → IsUpOpen above (set h.items i tmp) i
      → above tmp (at h.items (parent i)) ≡ true
      → (h' : Heap) × (up_loop above fuel h tmp i ≡ some h')
        × IsSifted above (set h.items i tmp) h.index h'
  unfolding up_loop
  up_loop-IsSifted zero h tmp i f pos w u up = absurd (omega arith)
  up_loop-IsSifted (suc fuel) h tmp i f pos w u up =
      rw (load_lem h (parent i) hp, place_lem h i (at h.items (parent i)) hi)
        (elim (Bool-cases (parent i == 0)) [
          | inl root ↦ rw root (
              finish-IsSifted above h i (parent i) tmp hi hp ne w
                (λ c p q. u'.edges c p q (ground (arith, root))))
          | inr inner ↦
              rw (inner, load_lem h1 (parent (parent i)) (rw length-set (omega (arith, hp))))
                (elim (Bool-cases (above tmp (at h1.items (parent (parent i))))) [
                  | inl again ↦ rw again (
                      let (h', e, s) =
                        up_loop-IsSifted fuel h1 tmp (parent i) (omega arith)
                          (ground (arith, inner))
                          (IsLoose-move h.items i (parent i) tmp (at h.items (parent i)) h.index hi
                            hp ne refl w)
                          u' again in
                      (h', e, IsSifted-move above h h' i (parent i) tmp hi hp ne s))
                  | inr settled ↦ rw settled (
                      finish-IsSifted above h i (parent i) tmp hi hp ne w (λ c p q. ground (
                        arith,
                        at-set h1.items (parent i) c tmp hp1,
                        at-set h1.items (parent i) (parent c) tmp hp1,
                        order.total tmp (at h1.items (parent (parent i))) settled,
                        u'.edges c p q,
                      )))
                ])
        ])
    where
      hi : i < length h.items
      hi = omega (arith, length-set h.items i tmp, w.inside)

      hp : parent i < length h.items
      hp = omega (arith, hi)

      ne : parent i ≢ i
      ne = omega arith

      h1 : Heap
      h1 = placed h i (at h.items (parent i))

      hp1 : parent i < length h1.items
      hp1 = rw length-set hp

      u' : IsUpOpen above (set h1.items (parent i) tmp) (parent i)
      u' = move-IsUpOpen h.items i tmp hi pos up u

  -- An item that may be out of order with its parent or with its children either rises to its place,
  -- or stays in its slot, below its parent.
  pub update_up-IsSifted :
      (h : Heap) (i : ℕ)
      → i < length h.items
      → IsIndexed h.items h.index
      → IsOpen above h.items i
      → ((update_up above h i ≡ some (false, h))
          × (0 < i → above (at h.items (parent i)) (at h.items i) ≡ true))
        ⊎ ((h' : Heap) × (update_up above h i ≡ some (true, h'))
            × IsSifted above h.items h.index h')
  unfolding update_up
  update_up-IsSifted h i hi w o = elim (Bool-cases (i == 0)) [
    | inl root ↦ inl (rw root refl, λ pos. absurd (ground (arith, root)))
    | inr inner ↦
        rw (inner, load_lem h (parent i) (omega arith), load_lem h i hi)
          (elim (Bool-cases (above (at h.items (parent i)) (at h.items i))) [
            | inl stays ↦ inl (rw stays refl, λ _. stays)
            | inr rises ↦ rw rises (
                let below = order.total (at h.items (parent i)) (at h.items i) rises in
                let open_up : IsUpOpen above h.items i = record {
                  edges = λ c p q ne. ground (
                    arith,
                    o.edges c p q ne,
                    o.bridged c p q,
                    inner,
                    order.trans (at h.items i) (at h.items (parent i)) (at h.items c) below,
                  );
                  bridged = o.bridged;
                } in
                let (h', e, s) =
                  up_loop-IsSifted (suc i) h (at h.items i) i (omega arith) (ground (arith, inner))
                    (rw (set-at h.items i) (IsIndexed-loosen h.items i h.index w hi))
                    (rw (set-at h.items i) open_up) below in
                inr (h', rw e refl, rw (set-at h.items i) at s))
          ])
  ]
