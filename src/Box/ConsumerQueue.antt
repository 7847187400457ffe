-- ===== src/Box/ConsumerQueue.antt =====
-- src/mg/box/MultiConsumerQueueBase.cpp: MCQBaseQueue and MCQBaseConsumer. The doubly-linked list of
-- sub-queues, from `myHead` to `myTail`, is `behind`, then `myWpos`, then `ahead`; a sub-queue's
-- neighbours are its `myPrev` and `myNext`. Each operation is one step, as the lock makes the changes
-- of the list be. New arrays hold `garbage`. `none` is a failed assertion, or a consumer whose
-- sub-queue is not at the write position or behind it.
pub mod Producing
mod Tests
use serverbox.Prelude.{
  ℕ, zero, suc, ◌+◌, ◌-◌, ◌/◌, ◌%◌, ◌^◌, Bool, true, false, Option, none, some, List, [], ◌∷◌, ◌++◌,
  ◌==◌, ltb, leb, if◌then◌else◌, ◌>>=◌, length, ◌⊎◌, inl, inr,
}
use serverbox.Box.SubQueue.{
  SubQueue, Popped, exhausted, popped, create, push, push_pending, flush_pending, is_full, reset,
  pop,
}

-- a sub-queue with its number, and the consumers that refer to it
pub record Sub : Type 0 where
  pub name : ℕ
  pub array : SubQueue
  pub consumers : ℕ

pub record ConsumerQueue : Type 0 where
  pub behind : List Sub
  pub wpos : Sub
  pub ahead : List Sub
  pub items : ℕ
  pub pending_items : ℕ
  pub sub_queues : ℕ
  pub all_consumers : ℕ

abbrev pub set_wpos : ConsumerQueue → SubQueue → ConsumerQueue
set_wpos q a = record q { wpos = record q.wpos { array = a } }

-- `new MCQBaseSubQueue(aSize)`
pub new_sub : ℕ → ℕ → (ℕ → Option ℕ) → Option Sub
new_sub name size garbage =
    create size garbage >>= λ a. some (record { name = name; array = a; consumers = 0 })

-- The constructor
pub create_queue : ℕ → ℕ → (ℕ → Option ℕ) → Option ConsumerQueue
create_queue name size garbage = do
  s ← new_sub name size garbage
  let q : ConsumerQueue = record {
    behind = [];
    wpos = s;
    ahead = [];
    items = 0;
    pending_items = 0;
    sub_queues = 1;
    all_consumers = 0;
  }
  if ltb 0 size then some q else none

-- The move of PrivNextWpos(), by the sub-queues ahead
pub move_wpos : ConsumerQueue → List Sub → ℕ → (ℕ → Option ℕ) → Option ConsumerQueue
move_wpos q (s ∷ ss) name garbage =
    some (record q { behind = q.behind ++ q.wpos ∷ []; wpos = s; ahead = ss })
move_wpos q [] name garbage = do
  s ← new_sub name q.wpos.array.size garbage
  some (record q {
    behind = q.behind ++ q.wpos ∷ [];
    wpos = s;
    sub_queues = (q.sub_queues + 1) % 2 ^ 32;
  })

-- PrivNextWpos()
pub next_wpos : ConsumerQueue → ℕ → (ℕ → Option ℕ) → Option ConsumerQueue
next_wpos q name garbage =
    if q.pending_items == 0
    then (if is_full q.wpos.array then move_wpos q q.ahead name garbage else none)
    else none

-- The slow path of Push(), when the sub-queue at the write position is full
pub push_beyond : ConsumerQueue → ℕ → ℕ → (ℕ → Option ℕ) → Option ConsumerQueue
push_beyond q item name garbage = do
  (_, a) ← flush_pending q.wpos.array
  q1 ← next_wpos (set_wpos q a) name garbage
  (_, b) ← push q1.wpos.array item
  some (set_wpos q1 b)

-- Push(): whether the queue was empty, and the queue behind it
pub push_item : ConsumerQueue → ℕ → ℕ → (ℕ → Option ℕ) → Option (Bool × ConsumerQueue)
push_item q item name garbage = do
  let q1 = record q { pending_items = 0; items = (q.items + (q.pending_items + 1)) % 2 ^ 32 }
  (done, a) ← push q.wpos.array item
  q2 ← if done then some (set_wpos q1 a) else push_beyond (set_wpos q1 a) item name garbage
  some (q.items == 0, q2)

-- FlushPending()
pub flush_items : ConsumerQueue → Option (Bool × ConsumerQueue)
flush_items q =
    let shown : Option (Bool × ConsumerQueue) = do
      let q1 = record q { pending_items = 0; items = (q.items + q.pending_items) % 2 ^ 32 }
      (_, a) ← flush_pending q.wpos.array
      some (q.items == 0, set_wpos q1 a)
    in if q.pending_items == 0 then some (false, q) else shown

abbrev pub add_pending : ConsumerQueue → SubQueue → ConsumerQueue
add_pending q a = record (set_wpos q a) { pending_items = (q.pending_items + 1) % 2 ^ 32 }

-- The slow path of PushPending()
pub pend_beyond : ConsumerQueue → ℕ → ℕ → (ℕ → Option ℕ) → Option (Bool × ConsumerQueue)
pend_beyond q item name garbage = do
  (became, q1) ← flush_items q
  q2 ← next_wpos q1 name garbage
  (_, b) ← push_pending q2.wpos.array item
  some (became, add_pending q2 b)

-- PushPending()
pub pend_item : ConsumerQueue → ℕ → ℕ → (ℕ → Option ℕ) → Option (Bool × ConsumerQueue)
pend_item q item name garbage = do
  (done, a) ← push_pending q.wpos.array item
  if done then some (false, add_pending q a) else pend_beyond (set_wpos q a) item name garbage

-- The loop of Reserve(), which makes `count` sub-queues
pub new_subs : ℕ → ℕ → ℕ → (ℕ → Option ℕ) → Option (List Sub)
new_subs zero name size garbage = some []
new_subs (suc count) name size garbage = do
  s ← new_sub name size garbage
  ss ← new_subs count (name + 1) size garbage
  some (s ∷ ss)

-- Reserve()
pub reserve : ConsumerQueue → ℕ → ℕ → (ℕ → Option ℕ) → Option ConsumerQueue
reserve q count name garbage =
    let size = q.wpos.array.size in
    let wanted = count / size + (if count % size == 0 then 0 else 1) in
    let more : Option ConsumerQueue = do
      ss ← new_subs (wanted - q.sub_queues) name size garbage
      some (record q { ahead = q.ahead ++ ss; sub_queues = wanted % 2 ^ 32 })
    in if leb wanted q.sub_queues then some q else more

-- a sub-queue behind the write position, by its number
pub find_sub : List Sub → ℕ → Option Sub
find_sub [] name = none
find_sub (s ∷ ss) name = let rest = find_sub ss name in if s.name == name then some s else rest

pub replace_sub : List Sub → Sub → List Sub
replace_sub [] new = []
replace_sub (s ∷ ss) new =
    let rest = replace_sub ss new in if s.name == new.name then new ∷ ss else s ∷ rest

pub drop_sub : List Sub → ℕ → List Sub
drop_sub [] name = []
drop_sub (s ∷ ss) name = let rest = drop_sub ss name in if s.name == name then ss else s ∷ rest

-- `cur->myNext`, of a sub-queue behind the write position
pub next_sub : List Sub → Sub → ℕ → Option Sub
next_sub [] wpos name = none
next_sub (s ∷ []) wpos name = if s.name == name then some wpos else none
next_sub (s ∷ t ∷ ss) wpos name =
    let rest = next_sub (t ∷ ss) wpos name in if s.name == name then some t else rest

abbrev pub get_sub : ConsumerQueue → ℕ → Option Sub
get_sub q name = if q.wpos.name == name then some q.wpos else find_sub q.behind name

abbrev pub put_sub : ConsumerQueue → Sub → ConsumerQueue
put_sub q s =
    if q.wpos.name == s.name
    then record q { wpos = s }
    else record q { behind = replace_sub q.behind s }

-- PrivGarbageCollectLocked()
pub collect_garbage : ConsumerQueue → Sub → Option ConsumerQueue
collect_garbage q s =
    let recycled : Option ConsumerQueue = do
      a ← reset s.array
      some (record q {
        behind = drop_sub q.behind s.name;
        ahead = q.ahead ++ record s { array = a } ∷ [];
      })
    in if q.wpos.name == s.name
      then some q
      else if s.consumers == 0
      then (if ltb s.array.read s.array.size then some q else recycled)
      else some q

-- `--s->myConsumerCount`, which must have been counted
pub leave_sub : ConsumerQueue → Sub → Option (Sub × ConsumerQueue)
leave_sub q s =
    let left = record s { consumers = s.consumers - 1 } in
    if s.consumers == 0 then none else some (left, put_sub q left)

-- Attach(): the consumer refers to the head
pub attach : ConsumerQueue → ℕ × ConsumerQueue
attach q =
    let q1 = record q { all_consumers = (q.all_consumers + 1) % 2 ^ 32 } in
    elim q.behind as (λ _. ℕ × ConsumerQueue) [
      | [] ↦ (q.wpos.name, record q1 { wpos = record q.wpos { consumers = q.wpos.consumers + 1 } })
      | s ∷ ss ↦ (s.name, record q1 { behind = record s { consumers = s.consumers + 1 } ∷ ss })
    ]

-- Detach(), of a consumer that is attached
pub detach : ConsumerQueue → ℕ → Option ConsumerQueue
detach q name = do
  s ← get_sub q name
  (left, q1) ← leave_sub (record q { all_consumers = (q.all_consumers + (2 ^ 32 - 1)) % 2 ^ 32 }) s
  collect_garbage q1 left

-- The slow path of the consumer's Pop(): the switch to the next sub-queue, behind the write position
pub switch_sub : ConsumerQueue → Sub → Option (ℕ × ConsumerQueue)
switch_sub q s = do
  (left, q1) ← leave_sub q s
  next ← next_sub q.behind q.wpos s.name
  q2 ← collect_garbage q1 left
  some (next.name, put_sub q2 (record next { consumers = next.consumers + 1 }))

-- What the consumer's Pop() does with the answer of the sub-queue: it is done, with an item or none,
-- or has moved on
pub settle_pop : ConsumerQueue → Sub → Popped → Option ((Option ℕ ⊎ ℕ) × ConsumerQueue)
settle_pop q s (popped none) = some (inl none, q)
settle_pop q s (popped (some item)) =
    some (inl (some item), record q { items = (q.items + (2 ^ 32 - 1)) % 2 ^ 32 })
settle_pop q s exhausted =
    if s.name == q.wpos.name
    then some (inl none, q)
    else (switch_sub q s >>= λ (name, q1). some (inr name, q1))

-- The consumer's Pop(), from its sub-queue: the item, and its sub-queue then. Each Pop() of a sub-queue
-- makes the exchanges `swaps`.
pub consumer_pop : ℕ → ConsumerQueue → ℕ → List Bool → Option (Option ℕ × ℕ × ConsumerQueue)
consumer_pop zero q name swaps = none
consumer_pop (suc fuel) q name swaps = do
  s ← get_sub q name
  (answer, a) ← pop s.array s.array.read swaps
  let s1 = record s { array = a }
  (r, q1) ← settle_pop (put_sub q s1) s1 answer
  elim r [ inl item ↦ some (item, name, q1) | inr next ↦ consumer_pop fuel q1 next swaps ]
