-- ===== src/Box/ForwardList/Walks.antt =====
-- What iteration visits.
use serverbox.Prelude.{
  ℕ, zero, suc, ◌≡◌, refl, ◌≤◌, Option, none, some, List, [], ◌∷◌, arith, length,
}
use serverbox.Box.Links.{Seg, Distinct, Seg-frame, update-ne, sym_ne}
use serverbox.Box.ForwardList.{Mem, begin_at, advance, visit, walk, set_link}
use serverbox.Box.ForwardList.Represent.{Holds}

-- `p` is being visited, and the cursor has read what is behind it.
visit_all :
    (fuel : ℕ) (body : Mem → ℕ → Option ℕ) (m : Mem) (p : ℕ) (after : Option ℕ) (xs : List ℕ)
    → length (p ∷ xs) ≤ fuel
    → Seg m.link after xs none
    → Distinct (p ∷ xs)
    → (m' : Mem) × (visit fuel body m after (some p) ≡ some (p ∷ xs, m'))
unfolding visit advance
visit_all zero body m p after xs f s d = absurd (omega arith)
visit_all (suc fuel) body m p after [] f s d = (set_link m p (body m p), rw s refl)
visit_all (suc fuel) body m p after (x ∷ xs) f s d =
    let m1 = set_link m p (body m p) in
    let kept : m1.link x ≡ m.link x = update-ne m.link p (body m p) x (sym_ne _ _ d.0.0) in
    let rest : Seg m1.link (m1.link x) xs none =
      rw kept (Seg-frame m.link p (body m p) (m.link x) xs none d.0.1 s.1) in
    let (m', e) = visit_all fuel body m1 x (m1.link x) xs (omega arith) rest d.1 in
    (m', ground (arith, s.0, e))

-- A loop over a list visits its items in order, once each, and ends, also if its body overwrites
-- the link of the item that it is at (as adding that item to another list does).
pub walk-Holds :
    (fuel : ℕ) (body : Mem → ℕ → Option ℕ) (m : Mem) (l : ℕ) (xs : List ℕ)
    → length xs ≤ fuel
    → Holds m l xs
    → (m' : Mem) × (walk fuel body m l ≡ some (xs, m'))
unfolding walk begin_at
walk-Holds fuel body m l [] f h = (m, rw h.chain refl)
walk-Holds fuel body m l (x ∷ xs) f h =
    let (m', e) = visit_all fuel body m x (m.link x) xs f h.chain.1 h.distinct in
    (m', rw h.chain.0 e)
