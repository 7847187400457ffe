-- ===== src/Box/ConsumerQueue/Producing.antt =====
-- The producer's push, over all sub-queues.
use mathlib.Core.List.{append-nil, append_assoc}
use serverbox.Prelude.{
  ℕ, ◌+◌, ◌%◌, ◌^◌, ◌<◌, ◌≡◌, refl, sym, ap, ◌∙◌, inl, inr, true, Option, some, List, [], ◌∷◌, ◌++◌,
  ◌==◌, length-append, arith,
}
use serverbox.Box.SubQueue.{SubQueue, is_full}
use serverbox.Box.SubQueue.Contents.{Contains, length-Run, IsPending-le}
use serverbox.Box.SubQueue.Producer.{push-Contains}
use serverbox.Box.SubQueue.Pending.{flush_pending_correct, create-Contains}
use serverbox.Box.ConsumerQueue.{
  Sub, ConsumerQueue, set_wpos, new_sub, move_wpos, next_wpos, push_beyond, push_item,
}

-- Sub-queues without pending items hold a list of items in a row.
abbrev pub HoldAll : List Sub → List ℕ → Type 0
HoldAll [] xs = xs ≡ []
HoldAll (s ∷ ss) xs =
    (vs : List ℕ) × (ys : List ℕ) × Contains s.array vs [] × HoldAll ss ys × (xs ≡ vs ++ ys)

-- Sub-queues are empty, with room.
abbrev pub AllFree : List Sub → Type 0
AllFree [] = Unit
AllFree (s ∷ ss) = Contains s.array [] [] × (s.array.write < s.array.size) × AllFree ss

-- The consumers see the items `visible` in all the sub-queues, and the items `pending` are behind them.
pub record Queued (q : ConsumerQueue) (visible pending : List ℕ) : Type 0 where
  pub older : List ℕ
  pub newer : List ℕ
  pub behind : HoldAll q.behind older
  pub here : Contains q.wpos.array newer pending
  pub order : older ++ newer ≡ visible
  pub free : AllFree q.ahead
  pub size : 0 < q.wpos.array.size

HoldAll-append :
    (ss : List Sub) (xs : List ℕ) (s : Sub) (vs : List ℕ)
    → HoldAll ss xs
    → Contains s.array vs []
    → HoldAll (ss ++ s ∷ []) (xs ++ vs)
HoldAll-append [] xs s vs h c = (vs, [], c, refl, rw (h, append-nil vs) refl)
HoldAll-append (t ∷ ss) xs s vs (us, ys, c, h, e) d =
    (us, ys ++ vs, c, HoldAll-append ss ys s vs h d, rw (e, append_assoc us ys vs) refl)

-- the queue whose write position has moved on, with no items at the new one
moved-Queued :
    (q : ConsumerQueue) (name : ℕ) (garbage : ℕ → Option ℕ) (xs : List ℕ)
    → Queued q xs []
    → (ss : List Sub) → AllFree ss
    → (q' : ConsumerQueue) × (move_wpos q ss name garbage ≡ some q')
      × (q'.wpos.array.write < q'.wpos.array.size)
      × Contains q'.wpos.array [] []
      × HoldAll q'.behind xs
      × AllFree q'.ahead
unfolding move_wpos new_sub
moved-Queued q name garbage xs h (s ∷ ss) f = (
  _,
  refl,
  f.1,
  f.0,
  rw h.order at (HoldAll-append q.behind h.older q.wpos h.newer h.behind h.here),
  f.2,
)
moved-Queued q name garbage xs h [] f =
    let (a, e, c, z, w) = create-Contains q.wpos.array.size garbage in
    let fresh : Sub = record { name = name; array = a; consumers = 0 } in
    (
      record q {
        behind = q.behind ++ q.wpos ∷ [];
        wpos = fresh;
        sub_queues = (q.sub_queues + 1) % 2 ^ 32;
      },
      rw e refl,
      omega (arith, z, w, h.size),
      c,
      rw h.order at (HoldAll-append q.behind h.older q.wpos h.newer h.behind h.here),
      h.free,
    )

-- a full sub-queue is full to its consumers too, once its pending items are flushed
flushed_full :
    (a b : SubQueue) (vs ps : List ℕ)
    → Contains a vs ps
    → a.write ≡ a.size
    → Contains b (vs ++ ps) []
    → b.read ≡ a.read
    → b.size ≡ a.size
    → is_full b ≡ true
unfolding is_full
flushed_full a b vs ps c w d r z = ground (
  arith,
  length-Run a.cells a.read vs a.flush c.run,
  IsPending-le a ps c.behind,
  length-Run b.cells b.read (vs ++ ps) b.flush d.run,
  length-append vs ps,
  w,
  r,
  z,
)

beyond-Queued :
    (q : ConsumerQueue) (item name : ℕ) (garbage : ℕ → Option ℕ) (xs ps : List ℕ)
    → Queued q xs ps
    → q.wpos.array.write ≡ q.wpos.array.size
    → q.pending_items ≡ 0
    → (q' : ConsumerQueue) × (push_beyond q item name garbage ≡ some q')
      × Queued q' (xs ++ (ps ++ item ∷ [])) []
unfolding push_beyond next_wpos
beyond-Queued q item name garbage xs ps h w z =
    let (a, e, c, r, k) = flush_pending_correct q.wpos.array h.newer ps h.here in
    let full = flushed_full q.wpos.array a h.newer ps h.here w c r k in
    let flushed : Queued (set_wpos q a) (xs ++ ps) [] = record {
      older = h.older;
      newer = h.newer ++ ps;
      behind = h.behind;
      here = c;
      order = sym (append_assoc h.older h.newer ps) ∙ ap (λ ys. ys ++ ps) h.order;
      free = h.free;
      size = omega (arith, k, h.size);
    } in
    let (q2, m, room, d, all, free) =
      moved-Queued (set_wpos q a) name garbage (xs ++ ps) flushed q.ahead h.free in
    let zero : (q.pending_items == 0) ≡ true = ground (arith, z) in
    elim (push-Contains q2.wpos.array item [] [] d) [
      | inl (f, _) ↦ absurd (omega (arith, f, room))
      | inr (b, f, g, _, n) ↦ (
        set_wpos q2 b,
        rw e (rw (zero, full) (rw m (rw f refl))),
        record {
          older = xs ++ ps;
          newer = item ∷ [];
          behind = all;
          here = g;
          order = append_assoc xs ps (item ∷ []);
          free = free;
          size = omega (arith, n, room);
        },
      )
    ]

-- the queue with the new item and the pending ones counted
abbrev counted : ConsumerQueue → ConsumerQueue
counted q = record q { pending_items = 0; items = (q.items + (q.pending_items + 1)) % 2 ^ 32 }

-- Push always succeeds: the consumers see the pending items and the new one behind all that they saw,
-- whether or not the queue had to move on to the next sub-queue or to a new one. The answer is whether
-- the queue counted no items.
pub push_item-Queued :
    (q : ConsumerQueue) (item name : ℕ) (garbage : ℕ → Option ℕ) (xs ps : List ℕ)
    → Queued q xs ps
    → (q' : ConsumerQueue) × (push_item q item name garbage ≡ some (q.items == 0, q'))
      × Queued q' (xs ++ (ps ++ item ∷ [])) []
unfolding push_item
push_item-Queued q item name garbage xs ps h =
    elim (push-Contains q.wpos.array item h.newer ps h.here) [
      | inl (w, f) ↦
          let same : Queued (counted q) xs ps = record {
            older = h.older;
            newer = h.newer;
            behind = h.behind;
            here = h.here;
            order = h.order;
            free = h.free;
            size = h.size;
          } in
          let (q', e, g) = beyond-Queued (counted q) item name garbage xs ps same w refl in
          (q', rw f (rw e refl), g)
      | inr (b, f, g, _, n) ↦ (
        set_wpos (counted q) b,
        rw f refl,
        record {
          older = h.older;
          newer = h.newer ++ (ps ++ item ∷ []);
          behind = h.behind;
          here = g;
          order =
              sym (append_assoc h.older h.newer (ps ++ item ∷ []))
              ∙ ap (λ ys. ys ++ (ps ++ item ∷ [])) h.order;
          free = h.free;
          size = omega (arith, n, h.size);
        },
      )
    ]
