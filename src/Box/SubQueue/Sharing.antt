-- ===== src/Box/SubQueue/Sharing.antt =====
-- A sub-queue that the producer and any number of consumers use at once. A consumer loads the read
-- index, loads the cell there, and exchanges the read index in separate steps; the steps of all the
-- consumers and the operations of the producer interleave in any way. An operation of the producer
-- is one step: what it writes before its last store is invisible to consumers.
pub mod Sound
pub mod Fifo
use serverbox.Prelude.{
  ℕ, zero, suc, ◌+◌, ◌<◌, ◌≤◌, ◌≡◌, refl, ◌∙◌, sym, ap, ◌⊎◌, inl, inr, Bool, true, false, Option,
  none, some, List, [], ◌∷◌, ◌++◌, arith, tests, ◌==◌, ◌≢◌, ◌&&◌, if◌then◌else◌, Bool-cases,
  Option-cases, ℕ_discrete,
}
use mathlib.Core.List.{append-nil, append_assoc}
use serverbox.Box.Links.{update}
use serverbox.Box.SubQueue.{
  SubQueue, Popped, exhausted, popped, load_cell, take_cell, create, push, push_pending,
  flush_pending,
}
use serverbox.Box.SubQueue.Contents.{Run, IsPending, Contains, Run-le, IsPending-le}

-- Where a consumer is in Pop()
pub data Phase : Type 0 where
  idle : Phase
  looking : ℕ → Phase
  holding : ℕ → Option ℕ → Phase

-- `taken_items` are the items that consumers have been answered, and `given_items` those that the
-- producer has handed in, both in order.
pub record Shared : Type 0 where
  pub queue : SubQueue
  pub phase : ℕ → Phase
  pub taken_items : List ℕ
  pub given_items : List ℕ

-- what a consumer does with the end of its round
unfoldable pub finish : Shared → ℕ → (Popped ⊎ ℕ) × SubQueue → Shared
finish s c (inl exhausted, q) = record s { queue = q; phase = update s.phase c idle }
finish s c (inl (popped none), q) = record s { queue = q; phase = update s.phase c idle }
finish s c (inl (popped (some v)), q) = record s {
  queue = q;
  phase = update s.phase c idle;
  taken_items = s.taken_items ++ v ∷ [];
}
finish s c (inr r, q) = record s { queue = q; phase = update s.phase c (looking r) }

pub data Step : Shared → Shared → Type 0 where
  enters :
      (s : Shared) (c : ℕ)
      → s.phase c ≡ idle
      → Step s (record s { phase = update s.phase c (looking s.queue.read) })
  leaves :
      (s : Shared) (c r : ℕ)
      → s.phase c ≡ looking r
      → r ≡ s.queue.size
      → Step s (record s { phase = update s.phase c idle })
  looks :
      (s : Shared) (c r : ℕ) (cell : Option ℕ)
      → s.phase c ≡ looking r
      → r ≢ s.queue.size
      → load_cell s.queue r ≡ some cell
      → Step s (record s { phase = update s.phase c (holding r cell) })
  swaps :
      (s : Shared) (c r : ℕ) (cell : Option ℕ) (swapped : Bool)
      → s.phase c ≡ holding r cell
      → Step s (finish s c (take_cell s.queue r swapped cell))
  pushes :
      (s : Shared) (item : ℕ) (q : SubQueue)
      → push s.queue item ≡ some (true, q)
      → Step s (record s { queue = q; given_items = s.given_items ++ item ∷ [] })
  pends :
      (s : Shared) (item : ℕ) (q : SubQueue)
      → push_pending s.queue item ≡ some (true, q)
      → Step s (record s { queue = q; given_items = s.given_items ++ item ∷ [] })
  flushes :
      (s : Shared) (b : Bool) (q : SubQueue)
      → flush_pending s.queue ≡ some (b, q)
      → Step s (record s { queue = q })

pub data Reaches : Shared → Shared → Type 0 where
  still : (s : Shared) → Reaches s s
  then_step : (s t u : Shared) → Reaches s t → Step t u → Reaches s u

abbrev pub start : SubQueue → Shared
start q = record { queue = q; phase = λ c. idle; taken_items = []; given_items = [] }
