-- ===== src/Box/SubQueue/Contents.antt =====
-- What a sub-queue holds: the items that the consumers see, and the pending ones behind them.
use serverbox.Prelude.{
  ℕ, suc, ◌+◌, ◌<◌, ◌≤◌, ◌≡◌, Bool, true, false, Option, none, some, List, [], ◌∷◌, ◌++◌, arith,
  length,
}
use serverbox.Box.Links.{update}
use serverbox.Box.SubQueue.{SubQueue}

-- The cells from `i` up to `j` hold the items `xs`.
abbrev pub Run : (ℕ → Option ℕ) → ℕ → List ℕ → ℕ → Type 0
Run cells i [] j = i ≡ j
Run cells i (x ∷ xs) j = (cells i ≡ some x) × Run cells (suc i) xs j

-- The pending items: the first is aside, the others are behind the cell of the flush index.
abbrev pub IsPending : SubQueue → List ℕ → Type 0
IsPending q [] = (q.first_pending ≡ none) × (q.write ≡ q.flush)
IsPending q (p ∷ ps) = (q.first_pending ≡ some p) × Run q.cells (suc q.flush) ps q.write

pub record Contains (q : SubQueue) (visible pending : List ℕ) : Type 0 where
  pub run : Run q.cells q.read visible q.flush
  pub ended : q.cells q.flush ≡ none
  pub behind : IsPending q pending
  pub fits : q.write ≤ q.size

pub Run-le : (cells : ℕ → Option ℕ) (i : ℕ) (xs : List ℕ) (j : ℕ) → Run cells i xs j → i ≤ j
Run-le cells i [] j r = omega (arith, r)
Run-le cells i (x ∷ xs) j r = omega (arith, Run-le cells (suc i) xs j r.1)

pub length-Run :
    (cells : ℕ → Option ℕ) (i : ℕ) (xs : List ℕ) (j : ℕ) → Run cells i xs j → i + length xs ≡ j
length-Run cells i [] j r = omega (arith, r)
length-Run cells i (x ∷ xs) j r = omega (arith, length-Run cells (suc i) xs j r.1)

-- A write in front of a run or behind it keeps it.
pub Run-frame_below :
    (cells : ℕ → Option ℕ) (k : ℕ) (v : Option ℕ) (i : ℕ) (xs : List ℕ) (j : ℕ)
    → k < i
    → Run cells i xs j
    → Run (update cells k v) i xs j
Run-frame_below cells k v i [] j h r = r
Run-frame_below cells k v i (x ∷ xs) j h r =
    (ground (arith, r.0), Run-frame_below cells k v (suc i) xs j (omega arith) r.1)

pub Run-frame_above :
    (cells : ℕ → Option ℕ) (k : ℕ) (v : Option ℕ) (i : ℕ) (xs : List ℕ) (j : ℕ)
    → j ≤ k
    → Run cells i xs j
    → Run (update cells k v) i xs j
Run-frame_above cells k v i [] j h r = r
Run-frame_above cells k v i (x ∷ xs) j h r =
    let le = Run-le cells (suc i) xs j r.1 in
    (ground (arith, r.0, le), Run-frame_above cells k v (suc i) xs j h r.1)

pub Run-join :
    (cells : ℕ → Option ℕ) (i : ℕ) (xs : List ℕ) (j : ℕ) (ys : List ℕ) (k : ℕ)
    → Run cells i xs j
    → Run cells j ys k
    → Run cells i (xs ++ ys) k
Run-join cells i [] j ys k r s = rw r s
Run-join cells i (x ∷ xs) j ys k r s = (r.0, Run-join cells (suc i) xs j ys k r.1 s)

-- The flush index is at most the write index, with a cell between for each pending item.
pub IsPending-le : (q : SubQueue) (ps : List ℕ) → IsPending q ps → q.flush + length ps ≡ q.write
IsPending-le q [] p = omega (arith, p.1)
IsPending-le q (x ∷ ps) p = omega (arith, length-Run q.cells (suc q.flush) ps q.write p.1)

abbrev pub is_nil : List ℕ → Bool
is_nil [] = true
is_nil (x ∷ xs) = false
