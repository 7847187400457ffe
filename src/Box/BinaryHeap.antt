-- ===== src/Box/BinaryHeap.antt =====
-- src/mg/box/BinaryHeap.h: the intrusive binary heap, whose items are pointers with a stored index.
-- A pointer is a number; `index` is the field `myIndex` of every object, with `none` for -1.
-- `above` is `IsLeftAbove` of the objects that two pointers lead to: by `<=` in a min-heap, by `>=`
-- in a max-heap. A heap of fewer than 2^31 items is meant, so that no index wraps; an access out of
-- bounds is a fault, `none`. The variants that store no index are not modelled.
pub mod Slots
pub mod Order
pub mod Sift
pub mod Operations
mod Tests
use serverbox.Prelude.{
  ℕ, zero, suc, ◌+◌, ◌-◌, ◌*◌, ◌/◌, Bool, true, false, Option, none, some, List, [], ◌∷◌, ◌++◌,
  ◌==◌, ltb, leb, if◌then◌else◌, length, get_elem?, set, take, ◌>>=◌,
}

pub record Heap : Type 0 where
  pub items : List ℕ
  pub index : ℕ → Option ℕ

-- `Methods::SetIndex(aItem, aIndex)`
abbrev pub set_index : Heap → ℕ → Option ℕ → Heap
set_index h item i = record h { index = λ q. if item == q then i else h.index q }

-- `tree[aIndex]`
pub load : Heap → ℕ → Option ℕ
load h i = get_elem? h.items i

-- `tree[aIndex] = aItem; SetIndex(tree[aIndex], aIndex)`
pub place : Heap → ℕ → ℕ → Option Heap
place h i item =
    if ltb i (length h.items)
    then some (set_index (record h { items = set h.items i item }) item (some i))
    else none

-- PrivParentIndex()
abbrev pub parent : ℕ → ℕ
parent i = (i - 1) / 2

-- PrivLeftChildIndex()
abbrev pub left_child : ℕ → ℕ
left_child i = 2 * i + 1

-- `myData.pop_back()`
pub pop_back : Heap → Heap
pop_back h = record h { items = take (length h.items - 1) h.items }

-- BinaryHeapMethodMinPtrIsLeftAbove, over a field of the objects
abbrev pub min_above : (ℕ → ℕ) → ℕ → ℕ → Bool
min_above key a b = leb (key a) (key b)

-- BinaryHeapMethodMaxPtrIsLeftAbove
abbrev pub max_above : (ℕ → ℕ) → ℕ → ℕ → Bool
max_above key a b = leb (key b) (key a)

module _ (above : ℕ → ℕ → Bool) where
  -- The do-while loop of PrivUpdateUp(), and the two statements behind it. `none` is also the fuel
  -- running out.
  pub up_loop : ℕ → Heap → ℕ → ℕ → Option Heap
  up_loop zero h tmp i = none
  up_loop (suc fuel) h tmp i = do
    v ← load h (parent i)
    h1 ← place h i v
    let j = parent i
    let again = up_loop fuel h1 tmp j
    let test = load h1 (parent j) >>= λ w. if above tmp w then again else place h1 j tmp
    if j == 0 then place h1 j tmp else test

  -- PrivUpdateUp()
  pub update_up : Heap → ℕ → Option (Bool × Heap)
  update_up h i = if i == 0 then some (false, h) else do
    p ← load h (parent i)
    tmp ← load h i
    let rise = up_loop (suc i) h tmp i >>= λ h1. some (true, h1)
    if above p tmp then some (false, h) else rise

  -- The choice of `topChild`, when there is a left child
  pub top_child : Heap → ℕ → Option ℕ
  top_child h i =
      let left = left_child i in
      let right = left + 1 in
      let both : Option ℕ = do
        a ← load h left
        b ← load h right
        some (if above a b then left else right)
      in if leb (length h.items) right then some left else both

  -- The do-while loop of PrivUpdateDown(), and the statements behind it
  pub down_loop : ℕ → Heap → ℕ → ℕ → ℕ → Option Heap
  down_loop zero h tmp i top = none
  down_loop (suc fuel) h tmp i top = do
    v ← load h top
    h1 ← place h i v
    let test : Option Heap = do
      top' ← top_child h1 top
      w ← load h1 top'
      let again = down_loop fuel h1 tmp top top'
      if above w tmp then again else place h1 top tmp
    if leb (length h1.items) (left_child top) then place h1 top tmp else test

  -- PrivUpdateDown()
  pub update_down : Heap → ℕ → Option (Bool × Heap)
  update_down h i = if leb (length h.items) (left_child i) then some (false, h) else do
    top ← top_child h i
    tmp ← load h i
    w ← load h top
    let sink = down_loop (suc (length h.items)) h tmp i top >>= λ h1. some (true, h1)
    if above tmp w then some (false, h) else sink

  -- PrivUpdate()
  pub update : Heap → ℕ → Option Heap
  update h i = do
    (moved, h1) ← update_up h i
    if moved then some h1 else (update_down h1 i >>= λ (_, h2). some h2)

  -- Push()
  pub push : Heap → ℕ → Option Heap
  push h item = do
    let i = length h.items
    let h1 = set_index (record h { items = h.items ++ item ∷ [] }) item (some i)
    (_, h2) ← update_up h1 i
    some h2

  -- UpdateTop()
  pub update_top : Heap → Option Heap
  update_top h = do (_, h1) ← update_down h 0; some h1

  -- Update(): the item's own index says where it is, which an assertion checks
  pub update_item : Heap → ℕ → Option Heap
  update_item h item = do
    i ← h.index item
    x ← load h i
    let change = update h i
    if x == item then change else none

  -- RemoveTop(), from a heap of at least one item (the emptiness test is in `remove_top`)
  remove_first : Heap → ℕ → Option Heap
  remove_first h count = do
    top ← load h 0
    let h1 = set_index h top none
    let shift : Option Heap = do
      moved ← load h1 (count - 1)
      h2 ← place h1 0 moved
      (_, h3) ← update_down (pop_back h2) 0
      some h3
    if count == 1 then some (pop_back h1) else shift

  -- RemoveTop()
  pub remove_top : Heap → Option (Bool × Heap)
  unfolding remove_first
  remove_top h =
      let count = length h.items in
      if count == 0 then some (false, h) else (remove_first h count >>= λ h1. some (true, h1))

  -- Remove(), with the assertion that the slot has the item
  pub remove : Heap → ℕ → Option Heap
  remove h item = do
    i ← h.index item
    let count = length h.items
    x ← load h i
    let h1 = set_index h x none
    let shift : Option Heap = do
      moved ← load h1 (count - 1)
      h2 ← place h1 i moved
      update (pop_back h2) i
    let taken : Option Heap = if i + 1 == count then some (pop_back h1) else shift
    if x == item then taken else none

  -- Pop(): the top item, or nothing from an empty heap
  pub pop : Heap → Option (Option ℕ × Heap)
  pop h =
      let first : Option (Option ℕ × Heap) = do
        top ← load h 0
        (_, h1) ← remove_top h
        some (some top, h1)
      in if length h.items == 0 then some (none, h) else first
