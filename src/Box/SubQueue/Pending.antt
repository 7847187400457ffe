-- ===== src/Box/SubQueue/Pending.antt =====
-- The producer's operations on pending items, and the new sub-queue.
use serverbox.Prelude.{
  ℕ, suc, ◌<◌, ◌≤◌, ◌≡◌, refl, ◌⊎◌, inl, inr, true, false, Option, none, some, List, [], ◌∷◌, ◌++◌,
  arith, ◌==◌, ltb, Bool-cases, not,
}
use mathlib.Core.List.{append-nil}
use serverbox.Box.SubQueue.{
  SubQueue, reset, create, save_pending, push_pending, publish, flush_pending,
}
use serverbox.Box.SubQueue.Contents.{
  is_nil, Contains, Run-le, Run-frame_below, Run-frame_above, Run-join, IsPending-le,
}
use serverbox.Box.SubQueue.Producer.{written, store_cell_lem, exchange_null_lem}

abbrev pended : SubQueue → ℕ → SubQueue
pended q item = record q { first_pending = some item; write = suc q.write }

abbrev pended_behind : SubQueue → ℕ → SubQueue
pended_behind q item = record (written q q.write (some item)) { write = suc q.write }

push_pending_free :
    (q : SubQueue) (item : ℕ) (vs ps : List ℕ)
    → q.write < q.size
    → Contains q vs ps
    → (q' : SubQueue) × (push_pending q item ≡ some (true, q'))
      × Contains q' vs (ps ++ item ∷ [])
      × (q'.read ≡ q.read)
      × (q'.size ≡ q.size)
unfolding push_pending save_pending
push_pending_free q item vs [] h c = (
  pended q item,
  (let room : (q.write == q.size) ≡ false = ground (arith, h) in rw room (rw c.behind.0 refl)),
  record {
    run = c.run;
    ended = c.ended;
    behind = (refl, ground (arith, c.behind.1));
    fits = omega (arith, h);
  },
  refl,
  refl,
)
push_pending_free q item vs (p ∷ ps) h c =
    let w : suc q.flush ≤ q.write = Run-le q.cells (suc q.flush) ps q.write c.behind.1 in
    let room : (q.write == q.size) ≡ false = ground (arith, h) in
    let saved = store_cell_lem q q.write (some item) (omega (arith, h)) in
    (
      pended_behind q item,
      rw (room, c.behind.0) (rw (← c.behind.0) (rw saved refl)),
      record {
        run =
            Run-frame_above q.cells q.write (some item) q.read vs q.flush (omega (arith, w)) c.run;
        ended = ground (arith, w, c.ended);
        behind = (
          c.behind.0,
          Run-join _ (suc q.flush) ps q.write (item ∷ []) (suc q.write)
              (Run-frame_above q.cells q.write (some item) (suc q.flush) ps q.write (omega arith)
                c.behind.1)
              (ground arith, refl),
        );
        fits = omega (arith, h);
      },
      refl,
      refl,
    )

-- PushPending to a full sub-queue is refused; otherwise the item is behind the pending ones, and
-- the consumers see what they saw.
pub push_pending_correct :
    (q : SubQueue) (item : ℕ) (vs ps : List ℕ)
    → Contains q vs ps
    → ((q.write ≡ q.size) × (push_pending q item ≡ some (false, q)))
      ⊎ ((q' : SubQueue) × (push_pending q item ≡ some (true, q'))
          × Contains q' vs (ps ++ item ∷ [])
          × (q'.read ≡ q.read)
          × (q'.size ≡ q.size))
push_pending_correct q item vs ps c = elim (Bool-cases (q.write == q.size)) [
  | inl full ↦ inl (ground (arith, full), unfold push_pending in rw full refl)
  | inr room ↦ inr (push_pending_free q item vs ps (ground (arith, room, c.fits)) c)
]

abbrev shown : SubQueue → ℕ → SubQueue
shown q p = record (written (written q q.write none) q.flush (some p)) {
  first_pending = none;
  flush = q.write;
}

shown-Contains :
    (q : SubQueue) (p : ℕ) (vs ps : List ℕ)
    → Contains q vs (p ∷ ps)
    → Contains (shown q p) (vs ++ p ∷ ps) []
shown-Contains q p vs ps c =
    let w : suc q.flush ≤ q.write = Run-le q.cells (suc q.flush) ps q.write c.behind.1 in
    record {
      run =
          Run-join _ q.read vs q.flush (p ∷ ps) q.write
            (Run-frame_above _ q.flush (some p) q.read vs q.flush (omega arith)
              (Run-frame_above _ q.write none q.read vs q.flush (omega (arith, w)) c.run))
            (
              ground arith,
              Run-frame_below _ q.flush (some p) (suc q.flush) ps q.write (omega arith) (
                  Run-frame_above _ q.write none (suc q.flush) ps q.write (omega arith) c.behind.1),
            );
      ended = ground (arith, w);
      behind = (refl, refl);
      fits = c.fits;
    }

publish_lem :
    (q : SubQueue) (p : ℕ)
    → q.flush < q.write
    → q.write ≤ q.size
    → q.cells q.flush ≡ none
    → publish q p ≡ some (shown q p)
unfolding publish
publish_lem q p w h e =
    let order : ltb q.flush q.write ≡ true = ground (arith, w) in
    let last =
      exchange_null_lem (written q q.write none) q.flush p (omega arith) (ground (arith, w, e)) in
    rw (order, store_cell_lem q q.write none h) (rw last refl)

-- FlushPending shows the consumers all that was pending, and says whether there was any.
pub flush_pending_correct :
    (q : SubQueue) (vs ps : List ℕ)
    → Contains q vs ps
    → (q' : SubQueue) × (flush_pending q ≡ some (not (is_nil ps), q'))
      × Contains q' (vs ++ ps) []
      × (q'.read ≡ q.read)
      × (q'.size ≡ q.size)
unfolding flush_pending
flush_pending_correct q vs [] c = (q, rw c.behind.0 refl, rw (append-nil vs) c, refl, refl)
flush_pending_correct q vs (p ∷ ps) c =
    let w = IsPending-le q (p ∷ ps) c.behind in
    (
      shown q p,
      rw c.behind.0 (
          rw (publish_lem (record q { first_pending = some p }) p (omega (arith, w)) c.fits c.ended)
            refl),
      shown-Contains q p vs ps c,
      refl,
      refl,
    )

-- A new sub-queue is empty, whatever the new array holds.
pub create-Contains :
    (size : ℕ) (cells : ℕ → Option ℕ)
    → (q : SubQueue) × (create size cells ≡ some q)
      × Contains q [] []
      × (q.size ≡ size)
      × (q.write ≡ 0)
unfolding create reset
create-Contains size cells =
    let same : (size == size) ≡ true = ground arith in
    let blank : SubQueue = record {
      read = 0;
      flush = 0;
      write = 0;
      first_pending = none;
      cells = cells;
      size = size;
    } in
    (
      written blank 0 none,
      rw (same, store_cell_lem blank 0 none (omega arith)) refl,
      record { run = refl; ended = refl; behind = (refl, refl); fits = omega arith },
      refl,
      refl,
    )
