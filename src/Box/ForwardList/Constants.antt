-- ===== src/Box/ForwardList/Constants.antt =====
-- ForwardListConstIterator of src/mg/box/ForwardList.h: a loop over a list that its body does not
-- change.
use serverbox.Prelude.{
  ℕ, zero, suc, ◌≤◌, ◌≡◌, refl, Option, none, some, List, [], ◌∷◌, length, arith,
}
use serverbox.Box.Links.{Seg}
use serverbox.Box.ForwardList.{Mem}
use serverbox.Box.ForwardList.Represent.{Holds}

-- ForwardListConstIterator(const T*), and begin() const
pub const_begin : Mem → ℕ → Option ℕ
const_begin m l = m.first l

-- operator++
pub const_advance : Mem → ℕ → Option ℕ
const_advance m pos = m.link pos

-- The loop: `operator!=` against a null position ends it. `none` is the fuel running out.
pub const_visit : ℕ → Mem → Option ℕ → Option (List ℕ)
unfolding const_advance
const_visit fuel m none = some []
const_visit zero m (some pos) = none
const_visit (suc fuel) m (some pos) = elim (const_visit fuel m (const_advance m pos)) [
  | none ↦ none
  | some ps ↦ some (pos ∷ ps)
]

pub const_walk : ℕ → Mem → ℕ → Option (List ℕ)
const_walk fuel m l = const_visit fuel m (const_begin m l)

const_visit_all :
    (fuel : ℕ) (m : Mem) (o : Option ℕ) (xs : List ℕ)
    → length xs ≤ fuel
    → Seg m.link o xs none
    → const_visit fuel m o ≡ some xs
unfolding const_visit const_advance
const_visit_all fuel m o [] f s = rw s refl
const_visit_all zero m o (x ∷ xs) f s = absurd (omega (arith, f))
const_visit_all (suc fuel) m o (x ∷ xs) f s =
    rw s.0 (rw (const_visit_all fuel m (m.link x) xs (omega (arith, f)) s.1, const_visit) refl)

-- A loop over a constant list visits its items in order, once each, and ends within as many rounds.
pub const_walk-Holds :
    (fuel : ℕ) (m : Mem) (l : ℕ) (xs : List ℕ)
    → length xs ≤ fuel
    → Holds m l xs
    → const_walk fuel m l ≡ some xs
unfolding const_walk const_begin
const_walk-Holds fuel m l xs f h = const_visit_all fuel m (m.first l) xs f h.chain
