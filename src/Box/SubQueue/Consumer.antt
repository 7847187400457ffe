-- ===== src/Box/SubQueue/Consumer.antt =====
-- What the consumers do to the items of a sub-queue, and what a consumer sees that others run past.
use serverbox.Prelude.{
  ℕ, zero, suc, ◌<◌, ◌≤◌, ◌≡◌, refl, inl, inr, Bool, true, false, none, some, List, [], ◌∷◌, ◌++◌,
  arith, ◌==◌, if◌then◌else◌, Bool-cases, replicate,
}
use serverbox.Box.SubQueue.{SubQueue, exhausted, popped, load_cell, take_cell, pop_round, pop}
use serverbox.Box.SubQueue.Contents.{Contains, Run-le, IsPending-le}

load_cell_lem : (q : SubQueue) (i : ℕ) → i ≤ q.size → load_cell q i ≡ some (q.cells i)
unfolding load_cell
load_cell_lem q i h = ground (arith, h)

round_lem :
    (q : SubQueue) (r : ℕ) (swapped : Bool)
    → r < q.size
    → pop_round q r swapped ≡ some (take_cell q r swapped (q.cells r))
unfolding pop_round
round_lem q r swapped h =
    let room : (r == q.size) ≡ false = ground (arith, h) in
    rw (room, load_cell_lem q r (omega (arith, h))) refl

round_over :
    (q : SubQueue) (r : ℕ) (swapped : Bool)
    → (r == q.size) ≡ true
    → pop_round q r swapped ≡ some (inl exhausted, q)
unfolding pop_round
round_over q r swapped e = rw e refl

IsPending-fits :
    (q : SubQueue) (vs ps : List ℕ) → Contains q vs ps → (q.read ≤ q.flush) × (q.flush ≤ q.size)
IsPending-fits q vs ps c =
    (Run-le q.cells q.read vs q.flush c.run, omega (arith, IsPending-le q ps c.behind, c.fits))

-- the sub-queue whose consumers have moved on by one
abbrev pub taken : SubQueue → SubQueue
taken q = record q { read = suc q.read }

round_first :
    (q : SubQueue) (v : ℕ) (vs ps : List ℕ)
    → Contains q (v ∷ vs) ps
    → pop_round q q.read true ≡ some (inl (popped (some v)), taken q)
round_first q v vs ps c =
    let le = Run-le q.cells (suc q.read) vs q.flush c.run.1 in
    let f = (IsPending-fits q (v ∷ vs) ps c).1 in
    let same : (q.read == q.read) ≡ true = ground arith in
    rw (round_lem q q.read true (omega (arith, le, f)), c.run.0) (unfold take_cell in rw same refl)

-- a failed exchange changes nothing, and the consumer goes round with the read index it had
round_retry :
    (q : SubQueue) (v : ℕ) (vs ps : List ℕ)
    → Contains q (v ∷ vs) ps
    → pop_round q q.read false ≡ some (inr q.read, q)
round_retry q v vs ps c =
    let le = Run-le q.cells (suc q.read) vs q.flush c.run.1 in
    let f = (IsPending-fits q (v ∷ vs) ps c).1 in
    let same : (q.read == q.read) ≡ true = ground arith in
    rw (round_lem q q.read false (omega (arith, le, f)), c.run.0) (unfold take_cell in rw same refl)

pub taken-Contains :
    (q : SubQueue) (v : ℕ) (vs ps : List ℕ) → Contains q (v ∷ vs) ps → Contains (taken q) vs ps
taken-Contains q v vs [] c = record {
  run = c.run.1;
  ended = c.ended;
  behind = c.behind;
  fits = c.fits;
}
taken-Contains q v vs (p ∷ ps) c = record {
  run = c.run.1;
  ended = c.ended;
  behind = c.behind;
  fits = c.fits;
}

-- Pop, after any number of exchanges that fail for no reason, takes the first item that is visible.
pub pop_first_visible :
    (q : SubQueue) (v : ℕ) (vs ps : List ℕ) (failures : ℕ) (swaps : List Bool)
    → Contains q (v ∷ vs) ps
    → (q' : SubQueue) × (pop q q.read (replicate failures false ++ true ∷ swaps)
        ≡ some (popped (some v), q'))
      × Contains q' vs ps
      × (q'.size ≡ q.size)
unfolding pop take_cell
pop_first_visible q v vs ps zero swaps c =
    (taken q, rw (round_first q v vs ps c, pop) refl, taken-Contains q v vs ps c, refl)
pop_first_visible q v vs ps (suc failures) swaps c =
    let (q', e, k, s) = pop_first_visible q v vs ps failures swaps c in
    (q', rw (round_retry q v vs ps c, pop) e, k, s)

-- Pop of a sub-queue with no visible item takes none and changes nothing. It finds the sub-queue
-- exhausted if all its cells have been shown, and otherwise only empty.
pub pop_nothing :
    (q : SubQueue) (ps : List ℕ) (swapped : Bool) (swaps : List Bool)
    → Contains q [] ps
    → pop q q.read (swapped ∷ swaps)
      ≡ some (if q.flush == q.size then exhausted else popped none, q)
unfolding pop take_cell
pop_nothing q ps swapped swaps c = elim (Bool-cases (q.flush == q.size)) [
  | inl full ↦ rw full (rw (round_over q q.read swapped (ground (arith, full, c.run)), pop) refl)
  | inr room ↦
      let f = (IsPending-fits q [] ps c).1 in
      let inside : q.read < q.size = ground (arith, room, c.run, f) in
      let nothing : q.cells q.read ≡ none = ground (arith, c.run, c.ended) in
      rw room (rw (round_lem q q.read swapped inside, nothing, pop) refl)
]
