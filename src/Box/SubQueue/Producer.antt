-- ===== src/Box/SubQueue/Producer.antt =====
-- What the operations of the producer do to the items of a sub-queue.
use serverbox.Prelude.{
  ℕ, suc, ◌<◌, ◌≤◌, ◌≡◌, refl, ◌⊎◌, inl, inr, true, false, Option, none, some, List, [], ◌∷◌, ◌++◌,
  arith, ◌==◌, ltb, Bool-cases,
}
use serverbox.Box.Links.{update}
use serverbox.Box.SubQueue.{SubQueue, load_cell, store_cell, exchange_null, place_pushed, push}
use serverbox.Box.SubQueue.Contents.{
  Contains, Run-le, Run-frame_below, Run-frame_above, Run-join, IsPending-le,
}

-- the sub-queue after a write to one cell
abbrev pub written : SubQueue → ℕ → Option ℕ → SubQueue
written q i v = record q { cells = update q.cells i v }

pub store_cell_lem :
    (q : SubQueue) (i : ℕ) (v : Option ℕ) → i ≤ q.size → store_cell q i v ≡ some (written q i v)
unfolding store_cell
store_cell_lem q i v h = ground (arith, h)

pub exchange_null_lem :
    (q : SubQueue) (i v : ℕ)
    → i ≤ q.size
    → q.cells i ≡ none
    → exchange_null q i v ≡ some (written q i (some v))
unfolding exchange_null load_cell
exchange_null_lem q i v h e = ground (arith, h, e, store_cell_lem q i (some v) h)

-- the end of a push: with the terminator one cell further, and the indexes behind the item
abbrev opened : SubQueue → SubQueue
opened q = record q {
  cells = update q.cells (suc q.write) none;
  write = suc q.write;
  flush = suc q.write;
}

abbrev pushed_alone : SubQueue → ℕ → SubQueue
pushed_alone q item = written (opened q) q.flush (some item)

abbrev pushed_behind : SubQueue → ℕ → ℕ → SubQueue
pushed_behind q item p =
    written (record (written (opened q) q.write (some item)) { first_pending = none }) q.flush
      (some p)

push_alone :
    (q : SubQueue) (item : ℕ)
    → q.write < q.size
    → q.first_pending ≡ none
    → q.write ≡ q.flush
    → q.cells q.flush ≡ none
    → push q item ≡ some (true, pushed_alone q item)
unfolding push place_pushed
push_alone q item h n w e =
    let room : (q.write == q.size) ≡ false = ground (arith, h) in
    let last =
      exchange_null_lem (record (opened q) { first_pending = none }) q.flush item
        (omega (arith, h, w)) (ground (arith, w, e)) in
    rw (room, store_cell_lem q (suc q.write) none (omega (arith, h))) (rw n (rw last refl))

push_behind :
    (q : SubQueue) (item p : ℕ)
    → q.write < q.size
    → q.first_pending ≡ some p
    → q.flush < q.write
    → q.cells q.flush ≡ none
    → push q item ≡ some (true, pushed_behind q item p)
unfolding push place_pushed
push_behind q item p h n w e =
    let room : (q.write == q.size) ≡ false = ground (arith, h) in
    let order : ltb q.flush q.write ≡ true = ground (arith, w) in
    let mid =
      store_cell_lem (record (opened q) { first_pending = some p }) q.write (some item)
        (omega (arith, h)) in
    let last =
      exchange_null_lem (record (written (opened q) q.write (some item)) { first_pending = none })
        q.flush p (omega (arith, h, w)) (ground (arith, w, e)) in
    rw (room, store_cell_lem q (suc q.write) none (omega (arith, h)))
      (rw n (rw (order, mid) (rw last refl)))

-- a `Contains` after the run has been pushed
pushed_alone-Contains :
    (q : SubQueue) (item : ℕ) (vs : List ℕ)
    → q.write < q.size
    → Contains q vs []
    → Contains (pushed_alone q item) (vs ++ item ∷ []) []
pushed_alone-Contains q item vs h c = record {
  run =
      Run-join _ q.read vs q.flush (item ∷ []) (suc q.write)
        (Run-frame_above _ q.flush (some item) q.read vs q.flush (omega arith) (
          Run-frame_above _ (suc q.write) none q.read vs q.flush (omega (arith, c.behind.1)) c.run))
        (ground arith, omega (arith, c.behind.1));
  ended = ground (arith, c.behind.1);
  behind = (c.behind.0, refl);
  fits = omega (arith, h);
}

pushed_behind-Contains :
    (q : SubQueue) (item p : ℕ) (vs ps : List ℕ)
    → q.write < q.size
    → Contains q vs (p ∷ ps)
    → Contains (pushed_behind q item p) (vs ++ ((p ∷ ps) ++ item ∷ [])) []
pushed_behind-Contains q item p vs ps h c =
    let w : suc q.flush ≤ q.write = Run-le q.cells (suc q.flush) ps q.write c.behind.1 in
    record {
      run =
          Run-join _ q.read vs q.flush ((p ∷ ps) ++ item ∷ []) (suc q.write)
            (Run-frame_above _ q.flush (some p) q.read vs q.flush (omega arith) (
              Run-frame_above _ q.write (some item) q.read vs q.flush (omega (arith, w))
                (Run-frame_above _ (suc q.write) none q.read vs q.flush (omega (arith, w)) c.run)))
            (
              ground arith,
              Run-join _ (suc q.flush) ps q.write (item ∷ []) (suc q.write)
                  (Run-frame_below _ q.flush (some p) (suc q.flush) ps q.write (omega arith) (
                    Run-frame_above _ q.write (some item) (suc q.flush) ps q.write (omega arith) (
                      Run-frame_above _ (suc q.write) none (suc q.flush) ps q.write (omega arith)
                        c.behind.1)))
                  (ground (arith, w), refl),
            );
      ended = ground (arith, w);
      behind = (refl, refl);
      fits = omega (arith, h);
    }

push_free :
    (q : SubQueue) (item : ℕ) (vs ps : List ℕ)
    → q.write < q.size
    → Contains q vs ps
    → (q' : SubQueue) × (push q item ≡ some (true, q'))
      × Contains q' (vs ++ (ps ++ item ∷ [])) []
      × (q'.read ≡ q.read)
      × (q'.size ≡ q.size)
push_free q item vs [] h c = (
  pushed_alone q item,
  push_alone q item h c.behind.0 c.behind.1 c.ended,
  pushed_alone-Contains q item vs h c,
  refl,
  refl,
)
push_free q item vs (p ∷ ps) h c = (
  pushed_behind q item p,
  push_behind q item p h c.behind.0 (omega (arith, IsPending-le q (p ∷ ps) c.behind)) c.ended,
  pushed_behind-Contains q item p vs ps h c,
  refl,
  refl,
)

-- Push to a full sub-queue is refused; otherwise it shows the consumers what was pending, and the
-- item behind it. No assertion fails and no access is out of bounds.
pub push-Contains :
    (q : SubQueue) (item : ℕ) (vs ps : List ℕ)
    → Contains q vs ps
    → ((q.write ≡ q.size) × (push q item ≡ some (false, q)))
      ⊎ ((q' : SubQueue) × (push q item ≡ some (true, q'))
          × Contains q' (vs ++ (ps ++ item ∷ [])) []
          × (q'.read ≡ q.read)
          × (q'.size ≡ q.size))
push-Contains q item vs ps c = elim (Bool-cases (q.write == q.size)) [
  | inl full ↦ inl (ground (arith, full), unfold push in rw full refl)
  | inr room ↦ inr (push_free q item vs ps (ground (arith, room, c.fits)) c)
]
