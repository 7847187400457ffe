-- ===== src/Box/ForwardList.antt =====
-- src/mg/box/ForwardList.h: the intrusive singly-linked list with a pointer at its last link.
-- A memory holds every list object and every item. `myLastLink` points at a place that holds a
-- pointer: the `myFirst` of some list object, or the link field of some item. A dereferenced null
-- pointer, and `ContainerOf` of a place that is no link field, are faults: `none`.
pub mod Represent
pub mod Pushes
pub mod Splices
pub mod Joins
pub mod Inserts
pub mod Reversal
pub mod Walks
pub mod Constants
mod Tests
use serverbox.Prelude.{
  ℕ, zero, suc, Bool, true, false, Option, none, some, List, [], ◌∷◌, ◌==◌, if◌then◌else◌,
}
use serverbox.Box.Links.{update}

-- The places that a `T**` can point at.
pub data Loc : Type 0 where
  first_of : ℕ → Loc
  link_of : ℕ → Loc

-- `first` and `last_link` are the fields of the list objects, `link` that of the items.
pub record Mem : Type 0 where
  pub first : ℕ → Option ℕ
  pub last_link : ℕ → Loc
  pub link : ℕ → Option ℕ

abbrev pub set_first : Mem → ℕ → Option ℕ → Mem
set_first m l v = record m { first = update m.first l v }

abbrev pub set_last : Mem → ℕ → Loc → Mem
set_last m l v = record m { last_link = update m.last_link l v }

abbrev pub set_link : Mem → ℕ → Option ℕ → Mem
set_link m p v = record m { link = update m.link p v }

-- `*aLoc = v`
abbrev pub store : Mem → Loc → Option ℕ → Mem
store m (first_of l) v = set_first m l v
store m (link_of p) v = set_link m p v

-- `ContainerOf(aLoc, myLink)`
abbrev pub container_of : Loc → Option ℕ
container_of (first_of l) = none
container_of (link_of p) = some p

-- `if (myFirst == nullptr) myLastLink = aLoc`
abbrev pub set_last_if_empty : Mem → ℕ → Loc → Mem
set_last_if_empty m l loc = elim (m.first l) [ none ↦ set_last m l loc | some _ ↦ m ]

-- Clear(), and the default constructor
pub clear : Mem → ℕ → Mem
clear m l = set_last (set_first m l none) l (first_of l)

-- ForwardList(ForwardList&&)
pub move_construct : Mem → ℕ → ℕ → Mem
unfolding clear
move_construct m l src = clear (set_last (set_first m l (m.first src)) l (m.last_link src)) src

-- ForwardList(T*, T*)
pub range_construct : Mem → ℕ → Option ℕ → Option ℕ → Mem
range_construct m l a_first none = set_last (set_first m l a_first) l (first_of l)
range_construct m l a_first (some a_last) =
    let m1 = set_last (set_first m l a_first) l (link_of a_last) in set_link m1 a_last none

-- Prepend(T*)
pub prepend : Mem → ℕ → ℕ → Mem
prepend m l item =
    let m1 = set_link m item (m.first l) in
    let m2 = set_last_if_empty m1 l (link_of item) in set_first m2 l (some item)

-- Prepend(T*, T*)
pub prepend_range : Mem → ℕ → Option ℕ → Option ℕ → Option Mem
prepend_range m l none a_last = some m
prepend_range m l (some a_first) none = none
prepend_range m l (some a_first) (some a_last) =
    let m1 = set_link m a_last (m.first l) in
    let m2 = set_last_if_empty m1 l (link_of a_last) in some (set_first m2 l (some a_first))

prepend_before : Mem → ℕ → ℕ → ℕ → Option ℕ → Option Mem
unfolding clear
prepend_before m l src src_first none = none
prepend_before m l src src_first (some last) =
    let m1 = set_link m last (m.first l) in
    let m2 = set_last_if_empty m1 l (link_of last) in
    some (clear (set_first m2 l (some src_first)) src)

-- Prepend(ForwardList&&)
pub prepend_list : Mem → ℕ → ℕ → Option Mem
unfolding prepend_before
prepend_list m l src = elim (m.first src) [
  | none ↦ some m
  | some src_first ↦ prepend_before m l src src_first (container_of (m.last_link src))
]

-- Append(T*), with no branch
pub append : Mem → ℕ → ℕ → Mem
append m l item =
    let m1 = set_link m item none in
    let m2 = store m1 (m1.last_link l) (some item) in set_last m2 l (link_of item)

-- Append(T*, T*)
pub append_range : Mem → ℕ → Option ℕ → Option ℕ → Option Mem
append_range m l none a_last = some m
append_range m l (some a_first) none = none
append_range m l (some a_first) (some a_last) =
    let m1 = store m (m.last_link l) (some a_first) in
    some (set_link (set_last m1 l (link_of a_last)) a_last none)

-- Append(ForwardList&&)
pub append_list : Mem → ℕ → ℕ → Mem
unfolding clear
append_list m l src = elim (m.first src) [
  | none ↦ m
  | some src_first ↦
      let m1 = store m (m.last_link l) (some src_first) in
      clear (set_last m1 l (m1.last_link src)) src
]

-- Insert(T*, T*): behind `aPrev`, or in front if that is null
pub insert : Mem → ℕ → Option ℕ → ℕ → Mem
insert m l (some prev) item =
    let m1 = set_link (set_link m item (m.link prev)) prev (some item) in
    elim (m1.link item) [ none ↦ set_last m1 l (link_of item) | some _ ↦ m1 ]
insert m l none item = elim (m.first l) [
  | none ↦ set_link (set_last (set_first m l (some item)) l (link_of item)) item none
  | some f ↦ set_first (set_link m item (some f)) l (some item)
]

-- The loop of Reverse(). `none` is the fuel running out, on a chain that does not end.
reverse_loop : ℕ → Mem → ℕ → Option ℕ → Option Mem
reverse_loop fuel m l none = some m
reverse_loop zero m l (some item) = none
reverse_loop (suc fuel) m l (some item) = reverse_loop fuel (prepend m l item) l (m.link item)

-- Reverse()
pub reverse_list : ℕ → Mem → ℕ → Option Mem
unfolding reverse_loop clear prepend
reverse_list fuel m l = reverse_loop fuel (clear m l) l (m.first l)

-- GetLast(): the address of the list's own `myFirst` stands for no item
pub get_last : Mem → ℕ → Option (Option ℕ)
get_last m l = elim (m.last_link l) [
  | first_of j ↦ if j == l then some none else none
  | link_of p ↦ some (some p)
]

-- PopAll(T*&): the first item, the last one, and the emptied list
pub pop_all : Mem → ℕ → Option (Option ℕ × Option ℕ × Mem)
unfolding get_last clear
pop_all m l = elim (get_last m l) [
  | none ↦ none
  | some a_last ↦ some (m.first l, a_last, clear m l)
]

-- PopFirst()
pub pop_first : Mem → ℕ → Option (ℕ × Mem)
pop_first m l = elim (m.first l) [
  | none ↦ none
  | some res ↦
      let m1 = set_first m l (m.link res) in
      let m2 = set_last_if_empty m1 l (first_of l) in some (res, m2)
]

-- operator=(ForwardList&&)
pub move_assign : Mem → ℕ → ℕ → Mem
unfolding clear
move_assign m l other =
    let m1 = set_first m l (m.first other) in
    elim (m1.first l) [
      | none ↦ set_last m1 l (first_of l)
      | some _ ↦ clear (set_last m1 l (m1.last_link other)) other
    ]

-- IsEmpty()
pub is_empty : Mem → ℕ → Bool
is_empty m l = elim (m.first l) [ none ↦ true | some _ ↦ false ]

-- ForwardListIterator: the item to visit and the one behind it, read before the visit
pub record Cursor : Type 0 where
  pub pos : Option ℕ
  pub after : Option ℕ

-- ForwardListIterator(T*), and begin()
pub begin_at : Mem → Option ℕ → Cursor
begin_at m none = record { pos = none; after = none }
begin_at m (some head) = record { pos = some head; after = m.link head }

-- operator++
pub advance : Mem → Cursor → Cursor
advance m c = elim c.after [
  | none ↦ record { pos = none; after = none }
  | some n ↦ record { pos = some n; after = m.link n }
]

-- `for (T* item : list)`, with a body that may write the link of the item that it visits. The
-- items visited come first; `none` is the fuel running out.
visit : ℕ → (Mem → ℕ → Option ℕ) → Mem → Option ℕ → Option ℕ → Option (List ℕ × Mem)
unfolding advance
visit fuel body m after none = some ([], m)
visit zero body m after (some p) = none
visit (suc fuel) body m after (some p) =
    let m1 = set_link m p (body m p) in
    let c = advance m1 (record { pos = some p; after = after }) in
    elim (visit fuel body m1 c.after c.pos) [ none ↦ none | some (ps, m2) ↦ some (p ∷ ps, m2) ]

pub walk : ℕ → (Mem → ℕ → Option ℕ) → Mem → ℕ → Option (List ℕ × Mem)
unfolding visit begin_at
walk fuel body m l = let c = begin_at m (m.first l) in visit fuel body m c.after c.pos
