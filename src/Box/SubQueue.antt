-- ===== src/Box/SubQueue.antt =====
-- src/mg/box/MultiConsumerQueueBase.cpp: MCQBaseSubQueue, the bounded array that one producer and
-- several consumers share without a lock. `cells` is `myQueue`, of `size` + 1 places; a null pointer
-- is `none`. An access out of the array, and a failed assertion, are faults: `none`. The indexes
-- stay at most `size`, a 32-bit number, so that they do not wrap. The list links and the consumer
-- count belong to the queue that owns the sub-queue.
pub mod Contents
pub mod Producer
pub mod Pending
pub mod Consumer
pub mod Sharing
mod Tests
use serverbox.Prelude.{
  ℕ, zero, suc, inl, inr, ◌⊎◌, ◌&&◌, Bool, true, false, Option, none, some, List, [], ◌∷◌, ◌>>=◌,
  ◌==◌, ltb, leb, if◌then◌else◌,
}
use serverbox.Box.Links.{update}

pub record SubQueue : Type 0 where
  pub read : ℕ
  pub flush : ℕ
  pub write : ℕ
  pub first_pending : Option ℕ
  pub cells : ℕ → Option ℕ
  pub size : ℕ

-- `myQueue[i]`
pub load_cell : SubQueue → ℕ → Option (Option ℕ)
load_cell q i = if leb i q.size then some (q.cells i) else none

-- `myQueue[i] = v`
pub store_cell : SubQueue → ℕ → Option ℕ → Option SubQueue
store_cell q i v = if leb i q.size then some (record q { cells = update q.cells i v }) else none

-- `old = myQueue[i].Exchange(v)`, and the assertion that `old` is null
pub exchange_null : SubQueue → ℕ → ℕ → Option SubQueue
exchange_null q i v = do
  old ← load_cell q i
  q1 ← store_cell q i (some v)
  elim old [ none ↦ some q1 | some _ ↦ none ]

-- Reset(), of a sub-queue that has been filled and read up
pub reset : SubQueue → Option SubQueue
reset q =
    let clean = store_cell (record q { read = 0; flush = 0; write = 0 }) 0 none in
    let unused : Option SubQueue = elim q.first_pending [ none ↦ clean | some _ ↦ none ] in
    if (q.read == q.size) && (q.write == q.size) && (q.flush == q.size) then unused else none

-- The constructor, with whatever the new array holds
pub create : ℕ → (ℕ → Option ℕ) → Option SubQueue
create size cells = reset (record {
  read = size;
  flush = size;
  write = size;
  first_pending = none;
  cells = cells;
  size = size;
})

-- The part of Push() that saves the item behind the pending ones, if there are any, and says which
-- item goes to the flush index
pub place_pushed : SubQueue → ℕ → ℕ → ℕ → Option ℕ → Option (SubQueue × ℕ)
place_pushed q w f item none = some (q, item)
place_pushed q w f item (some old) =
    if ltb f w
    then (store_cell q w (some item) >>= λ q1. some (record q1 { first_pending = none }, old))
    else none

-- Push()
pub push : SubQueue → ℕ → Option (Bool × SubQueue)
push q item = if q.write == q.size then some (false, q) else do
  q1 ← store_cell q (suc q.write) none
  let q2 = record q1 { write = suc q.write; flush = suc q.write }
  (q3, front) ← place_pushed q2 q.write q.flush item q.first_pending
  q4 ← exchange_null q3 q.flush front
  some (true, q4)

-- Where PushPending() puts the item, by `myFirstPending`
pub save_pending : SubQueue → ℕ → Option ℕ → Option SubQueue
save_pending q item none = some (record q { first_pending = some item })
save_pending q item (some _) = store_cell q q.write (some item)

-- PushPending()
pub push_pending : SubQueue → ℕ → Option (Bool × SubQueue)
push_pending q item =
    if q.write == q.size
    then some (false, q)
    else do q1 ← save_pending q item q.first_pending; some (true, record q1 { write = suc q.write })

-- FlushPending(), of a sub-queue with pending items, which the flush index may not have passed
pub publish : SubQueue → ℕ → Option SubQueue
publish q first =
    let shown : Option SubQueue = do
      q1 ← store_cell q q.write none
      q2 ← exchange_null q1 q.flush first
      some (record q2 { first_pending = none; flush = q.write })
    in if ltb q.flush q.write then shown else none

-- FlushPending()
pub flush_pending : SubQueue → Option (Bool × SubQueue)
flush_pending q = elim q.first_pending [
  | none ↦ some (false, q)
  | some first ↦ publish q first >>= λ q1. some (true, q1)
]

-- IsFull()
unfoldable pub is_full : SubQueue → Bool
is_full q = q.flush == q.size

-- What Pop() answers: `false`, or `true` with the item found or a null pointer
pub data Popped : Type 0 where
  exhausted : Popped
  popped : Option ℕ → Popped

-- The exchange of the read index, if the cell that has been read holds an item
pub take_cell : SubQueue → ℕ → Bool → Option ℕ → (Popped ⊎ ℕ) × SubQueue
take_cell q r swapped none = (inl (popped none), q)
take_cell q r swapped (some item) =
    if (q.read == r) && swapped
    then (inl (popped (some item)), record q { read = suc r })
    else (inr q.read, q)

-- One round of the loop of Pop(), from the read index that the consumer has loaded. `swapped` says
-- whether the exchange, which may fail for no reason, goes ahead if the read index is still the same.
-- The consumer ends with an answer, or goes round with the read index that it has found.
pub pop_round : SubQueue → ℕ → Bool → Option ((Popped ⊎ ℕ) × SubQueue)
pop_round q r swapped =
    if r == q.size
    then some (inl exhausted, q)
    else do cell ← load_cell q r; some (take_cell q r swapped cell)

-- Pop() of a consumer that no other one disturbs; each entry of `swaps` is one exchange. `none` is
-- also a run that has not ended when the list has.
pub pop : SubQueue → ℕ → List Bool → Option (Popped × SubQueue)
pop q r [] = none
pop q r (swapped ∷ swaps) = elim (pop_round q r swapped) [
  | none ↦ none
  | some (inl answer, q1) ↦ some (answer, q1)
  | some (inr r1, q1) ↦ pop q1 r1 swaps
]
