-- ===== src/Box/FrontQueue.antt =====
-- src/mg/box/MultiProducerQueueIntrusive.h: the lock-free stack that producers push to, and that the
-- consumer takes as a whole and turns round. `link` is the field `myNext` of all items. The loop of a
-- push makes an exchange for each entry of a list, which fails for no reason at `false`; `none` is a
-- loop that has not ended with the list, or with its fuel, or a null pointer that is dereferenced.
pub mod Turns
pub mod Order
mod Tests
use serverbox.Prelude.{
  ℕ, zero, suc, Bool, true, false, Option, none, some, List, [], ◌∷◌, if◌then◌else◌, ◌>>=◌,
}
use serverbox.Box.Links.{update}

pub record FrontQueue : Type 0 where
  pub head : Option ℕ
  pub link : ℕ → Option ℕ

abbrev pub is_null : Option ℕ → Bool
is_null none = true
is_null (some p) = false

-- IsEmpty()
pub no_items : FrontQueue → Bool
no_items q = is_null q.head

-- PrivPushRange()
pub push_chain : FrontQueue → ℕ → ℕ → List Bool → Option (Bool × FrontQueue)
push_chain q first last [] = none
push_chain q first last (swapped ∷ rounds) =
    let q1 = record q { link = update q.link last q.head } in
    let rest = push_chain q1 first last rounds in
    if swapped then some (is_null q.head, record q1 { head = some first }) else rest

-- Push()
pub push_one : FrontQueue → ℕ → List Bool → Option (Bool × FrontQueue)
push_one q item rounds = push_chain q item item rounds

-- PushManyFastReversed(T*, T*)
pub push_reversed : FrontQueue → Option ℕ → ℕ → List Bool → Option (Bool × FrontQueue)
push_reversed q none last rounds = some (no_items q, q)
push_reversed q (some first) last rounds =
    push_chain (record q { link = update q.link last none }) first last rounds

-- The loop of PushManyFastReversed(T*), which looks for the last item
pub find_last : ℕ → (ℕ → Option ℕ) → ℕ → Option ℕ
find_last zero link last = none
find_last (suc fuel) link last = elim (link last) [
  | none ↦ some last
  | some next ↦ find_last fuel link next
]

-- PushManyFastReversed(T*)
pub push_all_reversed : ℕ → FrontQueue → Option ℕ → List Bool → Option (Bool × FrontQueue)
push_all_reversed fuel q none rounds = some (no_items q, q)
push_all_reversed fuel q (some first) rounds =
    find_last fuel q.link first >>= λ last. push_chain q first last rounds

-- The loops of PushMany() and PopAll(), which turn a chain round
pub turn : ℕ → (ℕ → Option ℕ) → Option ℕ → Option ℕ → Option (Option ℕ × (ℕ → Option ℕ))
turn fuel link prev none = some (prev, link)
turn zero link prev (some curr) = none
turn (suc fuel) link prev (some curr) = turn fuel (update link curr prev) (some curr) (link curr)

-- PushMany(), of a chain of one item, by the link of the first one, or of more
pub push_turned : ℕ → FrontQueue → ℕ → Option ℕ → List Bool → Option (Bool × FrontQueue)
push_turned fuel q last none rounds = push_one q last rounds
push_turned fuel q last (some next) rounds = do
  (first, link) ← turn fuel q.link (some last) (some next)
  push_reversed (record q { link = link }) first last rounds

-- PushMany()
pub push_many : ℕ → FrontQueue → Option ℕ → List Bool → Option (Bool × FrontQueue)
push_many fuel q none rounds = some (no_items q, q)
push_many fuel q (some last) rounds = push_turned fuel q last (q.link last) rounds

-- PopAllFastReversed()
pub take_reversed : FrontQueue → Option ℕ × FrontQueue
take_reversed q = (q.head, record q { head = none })

-- PopAll(T*&): the first item, the last one, and the emptied queue
pub take_all : ℕ → FrontQueue → Option (Option ℕ × Option ℕ × FrontQueue)
take_all fuel q = do
  (first, link) ← turn fuel q.link none q.head
  some (first, q.head, record q { head = none; link = link })
