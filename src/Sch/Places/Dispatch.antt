-- ===== src/Sch/Places/Dispatch.antt =====
-- The round over the pending tasks: each goes to sleep, or to the ready queue.
use serverbox.Prelude.{
  ℕ, ◌≤◌, ◌<◌, ◌≡◌, ◌≢◌, refl, sym, ap, ◌∙◌, ◌⊎◌, inl, inr, Bool, true, false, not, some, List, [],
  ◌∷◌, ◌++◌, arith, ltb, count, Bool-cases,
}
use serverbox.Box.Links.{update, update-eq, update-ne}
use serverbox.Sch.Task.{Status, pending, waiting, ready, signaled, World}
use serverbox.Sch.Scheduler.{dispatch, pend_early, pend_late, pend_first}
use serverbox.Sch.Places.{to_look, to_run, asleep, IsPlaced, IsOrderly}
use serverbox.Sch.Places.Picking.{in_hand, dispatch-IsOrderly, sleep-IsOrderly}

-- What a round does to the task in the hand: an early one that nobody has woken goes to sleep; any
-- other is picked to run, signaled if it was, and ready otherwise.
abbrev pub Fate : World → World → ℕ → ℕ → Type 0
Fate w w' t now =
    ((w.status t ≡ pending)
      × (now < w.deadline t)
      × (w'.status t ≡ waiting)
      × (w'.picked ≡ w.picked))
    ⊎ (((w.status t ≢ pending) ⊎ (w.deadline t ≤ now))
        × (w'.picked ≡ w.picked ++ t ∷ [])
        × (((w.status t ≢ signaled) × (w'.status t ≡ ready))
            ⊎ ((w.status t ≡ signaled) × (w'.status t ≡ signaled))))

abbrev IsHandled : World → World → ℕ → ℕ → Type 0
IsHandled w w' t now =
    IsOrderly w' × (w'.expired t ≡ not (ltb now (w.deadline t))) × Fate w w' t now

module _ (w : World) (t : ℕ) (ts : List ℕ) (o : IsOrderly w) (first : w.pending_queue ≡ t ∷ ts)
    (inside : w.inside t ≡ true) (look : to_look w t ≡ 1) (run : to_run w t ≡ 0) where
  expired_by :
      (now : ℕ) (ex : ℕ → Bool) (w' : World)
      → w'.expired ≡ ex
      → ex t ≡ not (ltb now (w.deadline t))
      → w'.expired t ≡ not (ltb now (w.deadline t))
  expired_by now ex w' y e = ap (λ k. k t) y ∙ e

  -- a task that has been woken is picked with the status that it has
  woken-IsHandled :
      (now : ℕ) (ex : ℕ → Bool)
      → asleep w t ≤ 1
      → (w.status t ≡ ready) ⊎ (w.status t ≡ signaled)
      → ex t ≡ not (ltb now (w.deadline t))
      → (w' : World) × (dispatch (in_hand w w.status ex ts) t ≡ some w') × IsHandled w w' t now
  woken-IsHandled now ex le s x =
      let (w', f, i, p, q, y) =
        dispatch-IsOrderly w t ts o first inside look run w.status ex le s (λ u ne. refl) in
      let kept = ap (λ k. k t) q in
      (
        w',
        f,
        (
          i,
          expired_by now ex w' y x,
          elim s [
            | inl e ↦ inr (inl (ground (arith, e)), p, inl (ground (arith, e), kept ∙ e))
            | inr e ↦ inr (inl (ground (arith, e)), p, inr (e, kept ∙ e))
          ],
        ),
      )

  early-IsOrderly :
      (now : ℕ) (ex : ℕ → Bool) (s : Status)
      → w.status t ≡ s
      → asleep w t ≤ 1
      → (s ≡ pending → asleep w t ≡ 0)
      → s ≢ waiting
      → ltb now (w.deadline t) ≡ true
      → ex t ≡ false
      → (w' : World) × (pend_early (in_hand w w.status ex ts) t s ≡ some w') × IsHandled w w' t now
  unfolding pend_early
  early-IsOrderly now ex pending e le z n b x =
      let (w', f, i, p, q, y) = sleep-IsOrderly w t ts o first inside look run ex (z refl) in
      (w', f, (i, expired_by now ex w' y (x ∙ sym (ap not b)), inl (e, ground (arith, b), q, p)))
  early-IsOrderly now ex waiting e le z n b x = absurd (n refl)
  early-IsOrderly now ex ready e le z n b x = woken-IsHandled now ex le (inl e) (x ∙ sym (ap not b))
  early-IsOrderly now ex signaled e le z n b x =
      woken-IsHandled now ex le (inr e) (x ∙ sym (ap not b))

  late-IsOrderly :
      (now : ℕ) (ex : ℕ → Bool) (s : Status)
      → w.status t ≡ s
      → asleep w t ≤ 1
      → s ≢ waiting
      → ltb now (w.deadline t) ≡ false
      → ex t ≡ true
      → (w' : World) × (pend_late (in_hand w w.status ex ts) t s ≡ some w') × IsHandled w w' t now
  unfolding pend_late
  late-IsOrderly now ex pending e le n b x =
      let st = update w.status t ready in
      let (w', f, i, p, q, y) =
        dispatch-IsOrderly w t ts o first inside look run st ex le
          (inl (update-eq w.status t ready)) (λ u ne. update-ne w.status t ready u ne) in
      (
        w',
        f,
        (
          i,
          expired_by now ex w' y (x ∙ sym (ap not b)),
          inr (
            inr (ground (arith, b)),
            p,
            inl (ground (arith, e), ap (λ k. k t) q ∙ update-eq w.status t ready),
          ),
        ),
      )
  late-IsOrderly now ex waiting e le n b x = absurd (n refl)
  late-IsOrderly now ex ready e le n b x = woken-IsHandled now ex le (inl e) (x ∙ sym (ap not b))
  late-IsOrderly now ex signaled e le n b x = woken-IsHandled now ex le (inr e) (x ∙ sym (ap not b))

-- what is known of a task that is found among those to look at
arrived :
    (s : Status) (i : Bool) (l r h d : ℕ)
    → IsPlaced s i l r h d
    → 0 < l
    → (i ≡ true) × (l ≡ 1) × (r ≡ 0) × (h ≤ 1) × (s ≡ pending → h ≡ 0) × (s ≢ waiting)
arrived pending false l r h d p q = absurd (omega (arith, p.0, q))
arrived waiting false l r h d p q = absurd (omega (arith, p.0, q))
arrived ready false l r h d p q = absurd (omega (arith, p.0, q))
arrived signaled false l r h d p q = absurd (omega (arith, p.0, q))
arrived waiting true l r h d p q = absurd (omega (arith, p.0, q))
arrived pending true l r h d p q = (refl, p.0, p.1, omega (arith, p.2), (λ e. p.2), ground arith)
arrived ready true l r h d (inl p) q = (refl, p.0, p.1, p.2, ground arith, ground arith)
arrived ready true l r h d (inr p) q = absurd (omega (arith, p.0, q))
arrived signaled true l r h d (inl p) q = (refl, p.0, p.1, p.2, ground arith, ground arith)
arrived signaled true l r h d (inr p) q = absurd (omega (arith, p.0, q))

-- The round over the first pending task fails no assertion and leaves every task in its place. The
-- task is marked as expired exactly if its deadline is not ahead. If it is ahead and nobody has woken
-- the task, the task goes to sleep; otherwise it is picked to run, signaled if it was, else ready.
pub pend_first-IsOrderly :
    (w : World) (now t : ℕ) (ts : List ℕ)
    → IsOrderly w
    → w.pending_queue ≡ t ∷ ts
    → (w' : World) × (pend_first (record w { pending_queue = ts }) now t ≡ some w')
      × IsOrderly w'
      × (w'.expired t ≡ not (ltb now (w.deadline t)))
      × Fate w w' t now
unfolding pend_first
pend_first-IsOrderly w now t ts o first =
    let one : 0 < to_look w t = ground (arith, ap (count t) first) in
    let (i, l, r, h, z, n) =
      arrived (w.status t) (w.inside t) _ _ _ (w.deadline t) (o.placed t) one in
    elim (Bool-cases (ltb now (w.deadline t))) [
      | inl e ↦
          let (w', f, g) =
            early-IsOrderly w t ts o first i l r now (update w.expired t false) (w.status t) refl h
              z n e (update-eq w.expired t false) in
          (w', rw e f, g.0, g.1, g.2)
      | inr e ↦
          let (w', f, g) =
            late-IsOrderly w t ts o first i l r now (update w.expired t true) (w.status t) refl h n
              e (update-eq w.expired t true) in
          (w', rw e f, g.0, g.1, g.2)
    ]
