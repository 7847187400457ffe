-- ===== src/Box/FrontQueue/Turns.antt =====
-- The loop that turns a chain round.
use mathlib.Core.List.{reverse-cons, append_assoc}
use serverbox.Prelude.{
  ℕ, zero, suc, ◌≤◌, ◌≡◌, refl, ◌∙◌, Option, none, some, List, [], ◌∷◌, ◌++◌, reverse, length,
  arith,
}
use serverbox.Box.Links.{
  update, update-ne, update-eq, Seg, NotIn, Distinct, Disjoint, Seg-frame, Disjoint-cons,
}
use serverbox.Box.FrontQueue.{turn}

-- The chain comes out in the other order, in front of what it was turned onto, and the links of no
-- other items have changed.
pub turn-Seg :
    (fuel : ℕ) (link : ℕ → Option ℕ) (prev curr : Option ℕ) (done todo : List ℕ)
    → length todo ≤ fuel
    → Seg link curr todo none
    → Distinct todo
    → Seg link prev done none
    → Disjoint todo done
    → (first : Option ℕ) × (link' : ℕ → Option ℕ) × (turn fuel link prev curr ≡ some (first, link'))
      × Seg link' first (reverse todo ++ done) none
      × ((p : ℕ) → NotIn p todo → link' p ≡ link p)
unfolding turn
turn-Seg fuel link prev curr done [] f s d t j = (prev, link, rw s refl, t, λ p n. refl)
turn-Seg zero link prev curr done (x ∷ todo) f s d t j = absurd (omega (arith, f))
turn-Seg (suc fuel) link prev curr done (x ∷ todo) f s d t j =
    let link1 = update link x prev in
    let (first, link', e, r, k) =
      turn-Seg fuel link1 (some x) (link x) (x ∷ done) todo (omega arith)
        (Seg-frame link x prev (link x) todo none d.0 s.1) d.1
        (refl, rw (update-eq link x prev) (Seg-frame link x prev prev done none j.0 t))
        (Disjoint-cons x todo done d.0 j.1) in
    (
      first,
      link',
      rw s.0 e,
      rw (reverse-cons x todo, append_assoc (reverse todo) (x ∷ []) done) r,
      λ p n. k p n.1 ∙ update-ne link x prev p n.0,
    )
