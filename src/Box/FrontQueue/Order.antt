-- ===== src/Box/FrontQueue/Order.antt =====
-- What the queue holds: a chain from its head, the newest item first.
use mathlib.Core.List.{append-nil}
use serverbox.Prelude.{
  ℕ, zero, suc, ◌≤◌, ◌≡◌, refl, Bool, true, false, Option, none, some, List, [], ◌∷◌, ◌++◌, reverse,
  length, replicate,
}
use serverbox.Box.Links.{
  update, Seg, Distinct, Disjoint, last, Seg-frame, Seg-join, Seg-redirect, Distinct-append,
  Disjoint-last, Disjoint-nil,
}
use serverbox.Box.FrontQueue.{FrontQueue, is_null, push_chain, take_all}
use serverbox.Box.FrontQueue.Turns.{turn-Seg}

pub record Stacks (q : FrontQueue) (xs : List ℕ) : Type 0 where
  pub chain : Seg q.link q.head xs none
  pub distinct : Distinct xs

linked :
    (q : FrontQueue) (xs : List ℕ) (y : ℕ) (ys : List ℕ) (e : Option ℕ)
    → Stacks q xs
    → Seg q.link (some y) (y ∷ ys) e
    → Distinct (y ∷ ys)
    → Disjoint (y ∷ ys) xs
    → Seg (update q.link (last y ys) q.head) (some y) (y ∷ ys) q.head
      × Seg (update q.link (last y ys) q.head) q.head xs none
linked q xs y ys e h s d j = (
  Seg-redirect q.link (some y) y ys e q.head d s,
  Seg-frame q.link (last y ys) q.head q.head xs none (Disjoint-last y ys xs j) h.chain,
)

-- A push of a chain, after any number of exchanges that fail for no reason, puts the chain in front of
-- all that the queue holds, and says whether it held nothing.
pub push_chain-Stacks :
    (failures : ℕ) (rounds : List Bool) (q : FrontQueue) (xs : List ℕ) (y : ℕ) (ys : List ℕ)
    (e : Option ℕ)
    → Stacks q xs
    → Seg q.link (some y) (y ∷ ys) e
    → Distinct (y ∷ ys)
    → Disjoint (y ∷ ys) xs
    → (q' : FrontQueue) × (push_chain q y (last y ys) (replicate failures false ++ true ∷ rounds)
        ≡ some (is_null q.head, q'))
      × Stacks q' ((y ∷ ys) ++ xs)
unfolding push_chain
push_chain-Stacks zero rounds q xs y ys e h s d j =
    let (front, behind) = linked q xs y ys e h s d j in
    (
      _,
      refl,
      record {
        chain = Seg-join _ (some y) (y ∷ ys) q.head xs none front behind;
        distinct = Distinct-append (y ∷ ys) xs d h.distinct j;
      },
    )
push_chain-Stacks (suc failures) rounds q xs y ys e h s d j =
    let (front, behind) = linked q xs y ys e h s d j in
    push_chain-Stacks failures rounds (record q { link = update q.link (last y ys) q.head }) xs y ys
      q.head (record { chain = behind; distinct = h.distinct }) front d j

-- PopAll takes all items, chained in the order in which they were pushed, with the oldest one first
-- and the newest one last, and leaves an empty queue, within as many rounds as there are items.
pub take_all-Stacks :
    (fuel : ℕ) (q : FrontQueue) (xs : List ℕ)
    → length xs ≤ fuel
    → Stacks q xs
    → (first : Option ℕ) × (q' : FrontQueue) × (take_all fuel q ≡ some (first, q.head, q'))
      × Seg q'.link first (reverse xs) none
      × Stacks q' []
unfolding take_all
take_all-Stacks fuel q xs f h =
    let (first, link, e, s, _) =
      turn-Seg fuel q.link none q.head [] xs f h.chain h.distinct refl (Disjoint-nil xs) in
    (first, _, rw e refl, rw (append-nil (reverse xs)) at s, record { chain = refl; distinct = tt })
