-- ===== src/Box/ForwardList/Reversal.antt =====
-- What Reverse does: the loop pops every item of the old chain and prepends it to the new one.
use mathlib.Core.List.{append-nil, append_assoc, reverse-cons}
use serverbox.Prelude.{
  ℕ, zero, suc, ◌≡◌, refl, ◌≤◌, Option, Option-cases, inl, inr, none, some, List, [], ◌∷◌, ◌++◌,
  arith, reverse, length,
}
use serverbox.Box.Links.{Seg, Distinct, Disjoint, Seg-frame, Disjoint-cons, Disjoint-nil, update}
use serverbox.Box.ForwardList.{Mem, clear, prepend, reverse_loop, reverse_list}
use serverbox.Box.ForwardList.Represent.{Holds, clear-Holds}
use serverbox.Box.ForwardList.Pushes.{prepend-Holds}

link-prepend : (m : Mem) (l item : ℕ) → (prepend m l item).link ≡ update m.link item (m.first l)
unfolding prepend
link-prepend m l item = elim (Option-cases (m.first l)) [
  | inl e ↦ ground (arith, e)
  | inr (f, e) ↦ ground (arith, e)
]

link-clear : (m : Mem) (l : ℕ) → (clear m l).link ≡ m.link
unfolding clear
link-clear m l = refl

-- `done` is already in the list, newest first, and `todo` hangs on the local variable `item`.
reverse_loop-Holds :
    (fuel : ℕ) (m : Mem) (l : ℕ) (item : Option ℕ) (done todo : List ℕ)
    → length todo ≤ fuel
    → Holds m l done
    → Seg m.link item todo none
    → Distinct todo
    → Disjoint todo done
    → (m' : Mem) × (reverse_loop fuel m l item ≡ some m') × Holds m' l (reverse todo ++ done)
unfolding reverse_loop
reverse_loop-Holds fuel m l item done [] f h s d j = rw s (m, refl, h)
reverse_loop-Holds zero m l item done (x ∷ todo) f h s d j = absurd (omega arith)
reverse_loop-Holds (suc fuel) m l item done (x ∷ todo) f h s d j =
    rw (s.0, reverse-cons x todo, append_assoc (reverse todo) (x ∷ []) done)
      (reverse_loop-Holds fuel (prepend m l x) l (m.link x) (x ∷ done) todo (omega arith)
        (prepend-Holds m l x done h j.0)
        (rw (link-prepend m l x) (Seg-frame m.link x (m.first l) (m.link x) todo none d.0 s.1)) d.1
        (Disjoint-cons x todo done d.0 j.1))

-- Reverse turns the order round, and ends within as many rounds as there are items.
pub reverse_list-Holds :
    (fuel : ℕ) (m : Mem) (l : ℕ) (xs : List ℕ)
    → length xs ≤ fuel
    → Holds m l xs
    → (m' : Mem) × (reverse_list fuel m l ≡ some m') × Holds m' l (reverse xs)
unfolding reverse_list
reverse_list-Holds fuel m l xs f h = rw (append-nil (reverse xs)) at (
    reverse_loop-Holds fuel (clear m l) l (m.first l) [] xs f (clear-Holds m l)
      (rw (link-clear m l) h.chain) h.distinct (Disjoint-nil xs))
