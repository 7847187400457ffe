-- ===== src/Sch/Places/Expiry.antt =====
-- The round over the waiting tasks: the top one, if its deadline has come, leaves the heap.
use serverbox.Prelude.{
  ℕ, zero, suc, ◌+◌, ◌<◌, ◌≡◌, ◌≢◌, refl, ap, ◌∙◌, ◌⊎◌, inl, inr, Bool, true, false, some, List, [],
  ◌∷◌, arith, ltb, length, count, count-Perm, Bool-cases, ℕ_discrete,
}
use serverbox.Box.Links.{update-eq, update-ne}
use serverbox.Box.BinaryHeap.{Heap, remove_top}
use serverbox.Box.BinaryHeap.Slots.{at}
use serverbox.Box.BinaryHeap.Operations.{IsHeap, top-above}
use serverbox.Box.BinaryHeap.Operations.Top.{remove_top_correct}
use serverbox.Sch.Task.{Status, pending, waiting, ready, signaled, World, set_status, task_above}
use serverbox.Sch.Scheduler.{set_expired, pick, expire, wait_from, wait_top, wait_round, wait_loop}
use serverbox.Sch.Places.{
  to_look, to_run, asleep, IsPlaced, equal_fields, IsOrderly, settle, task_above-IsOrder,
}
use serverbox.Sch.Places.Moves.{count-push, count-push_other}

removed_lem :
    (w : World) (t : ℕ) (ts : List ℕ)
    → IsHeap (task_above w) w.heap
    → w.heap.items ≡ t ∷ ts
    → (h : Heap) × (remove_top (task_above w) w.heap ≡ some (true, h))
      × IsHeap (task_above w) h
      × (count t h.items + 1 ≡ asleep w t)
      × ((u : ℕ) → u ≢ t → count u h.items ≡ asleep w u)
removed_lem w t ts heap e =
    let (h, f, r, _) =
      remove_top_correct (task_above w) (task_above-IsOrder w) w.heap heap (rw e (omega arith)) in
    let first : at w.heap.items 0 ≡ t = rw e (unfold at in refl) in
    (
      h,
      f,
      r.heap,
      ground (arith, first, count-Perm t (at w.heap.items 0 ∷ h.items) w.heap.items r.same),
      λ u ne.
          ground (arith, ne, first, count-Perm u (at w.heap.items 0 ∷ h.items) w.heap.items r.same),
    )

-- what is known of a task that is found in the heap
sleeper :
    (s : Status) (i : Bool) (l r h d : ℕ)
    → IsPlaced s i l r h d
    → 0 < h
    → (i ≡ true)
      × (r ≡ 0)
      × (h ≡ 1)
      × (((s ≡ waiting) × (l ≡ 0)) ⊎ (((s ≡ ready) ⊎ (s ≡ signaled)) × (l ≡ 1)))
sleeper pending false l r h d p q = absurd (omega (arith, p.2, q))
sleeper waiting false l r h d p q = absurd (omega (arith, p.0, p.1))
sleeper ready false l r h d p q = absurd (omega (arith, p.2, q))
sleeper signaled false l r h d p q = absurd (omega (arith, p.2, q))
sleeper pending true l r h d p q = absurd (omega (arith, p.2, q))
sleeper waiting true l r h d (a, b, inl c) q = absurd (omega (arith, c.1, q))
sleeper waiting true l r h d (a, b, inr c) q = (refl, b, c.1, inl (refl, a))
sleeper ready true l r h d (inl p) q = (refl, p.1, omega (arith, p.2, q), inr (inl refl, p.0))
sleeper ready true l r h d (inr p) q = absurd (omega (arith, p.2, q))
sleeper signaled true l r h d (inl p) q = (refl, p.1, omega (arith, p.2, q), inr (inr refl, p.0))
sleeper signaled true l r h d (inr p) q = absurd (omega (arith, p.2, q))

woken_place :
    (s : Status) (l r h d : ℕ)
    → (s ≡ ready) ⊎ (s ≡ signaled)
    → l ≡ 1
    → r ≡ 0
    → h ≡ 0
    → IsPlaced s true l r h d
woken_place s l r h d (inl e) a b c = rw e (inl (a, b, omega arith))
woken_place s l r h d (inr e) a b c = rw e (inl (a, b, omega arith))

-- the world without the top of the heap
abbrev lifted : World → ℕ → Heap → World
lifted w t h = set_expired (record w { heap = h }) t true

module _ (w : World) (t : ℕ) (h : Heap) (o : IsOrderly w) (heap : IsHeap (task_above w) h)
    (gone : count t h.items ≡ 0) (kept : (u : ℕ) → u ≢ t → count u h.items ≡ asleep w u)
    (inside : w.inside t ≡ true) (run : to_run w t ≡ 0) where
  asleep_before :
      w.status t ≡ waiting
      → to_look w t ≡ 0
      → IsOrderly (pick (set_status (lifted w t h) t ready) t)
  asleep_before e l =
      settle w (pick (set_status (lifted w t h) t ready) t) t o heap
        (equal_fields ready _ true _ _ _ _ _ _ _ _ _ (update-eq w.status t ready) inside refl refl
          refl refl (inr (l, omega (arith, run, count-push t w.picked), gone)))
        (λ u ne. record {
          status = update-ne w.status t ready u ne;
          inside = refl;
          look = refl;
          run = omega (arith, count-push_other u t w.picked ne);
          sleep = kept u ne;
          deadline = refl;
        })

  woken_before :
      (w.status t ≡ ready) ⊎ (w.status t ≡ signaled) → to_look w t ≡ 1 → IsOrderly (lifted w t h)
  woken_before s l =
      settle w (lifted w t h) t o heap
        (equal_fields _ _ true _ _ _ _ _ _ _ _ _ refl inside refl refl refl refl
          (woken_place (w.status t) _ _ _ (w.deadline t) s l run gone))
        (λ u ne. record {
          status = refl;
          inside = refl;
          look = refl;
          run = refl;
          sleep = kept u ne;
          deadline = refl;
        })

expire_all :
    (w : World) (t : ℕ) (h : Heap)
    → IsOrderly w
    → IsHeap (task_above w) h
    → count t h.items ≡ 0
    → ((u : ℕ) → u ≢ t → count u h.items ≡ asleep w u)
    → w.inside t ≡ true
    → to_run w t ≡ 0
    → (s : Status) → w.status t ≡ s
    → ((s ≡ waiting) × (to_look w t ≡ 0)) ⊎ (((s ≡ ready) ⊎ (s ≡ signaled)) × (to_look w t ≡ 1))
    → (w' : World) × (expire (lifted w t h) t s ≡ some w') × IsOrderly w'
unfolding expire
expire_all w t h o p g k i r waiting e (inl (_, l)) = (_, refl, asleep_before w t h o p g k i r e l)
expire_all w t h o p g k i r waiting e (inr (s, _)) = absurd (ground (arith, s))
expire_all w t h o p g k i r ready e (inl (s, _)) = absurd (ground (arith, s))
expire_all w t h o p g k i r ready e (inr (_, l)) =
    (_, refl, woken_before w t h o p g k i r (inl e) l)
expire_all w t h o p g k i r signaled e (inl (s, _)) = absurd (ground (arith, s))
expire_all w t h o p g k i r signaled e (inr (_, l)) =
    (_, refl, woken_before w t h o p g k i r (inr e) l)
expire_all w t h o p g k i r pending e (inl (s, _)) = absurd (ground (arith, s))
expire_all w t h o p g k i r pending e (inr (s, _)) = absurd (ground (arith, s))

pub List-cases : (xs : List ℕ) → (xs ≡ []) ⊎ ((y : ℕ) × (ys : List ℕ) × (xs ≡ y ∷ ys))
List-cases [] = inl refl
List-cases (y ∷ ys) = inr (y, ys, refl)

count-slot : (t : ℕ) (a : List ℕ) → 0 < count t a → (j : ℕ) × (j < length a) × (at a j ≡ t)
unfolding at
count-slot t [] p = absurd (omega (arith, p))
count-slot t (x ∷ a) p = elim (ℕ_discrete x t) [
  | yes e ↦ (0, omega arith, e)
  | no ne ↦ let (j, q, e) = count-slot t a (ground (arith, p, ne)) in (suc j, omega (arith, q), e)
]

-- if the top of the heap is early, every task in the heap is
ahead :
    (w : World) (now t : ℕ) (ts : List ℕ)
    → IsOrderly w
    → w.heap.items ≡ t ∷ ts
    → now < w.deadline t
    → (u : ℕ) → 0 < asleep w u
    → now < w.deadline u
ahead w now t ts o e b u p =
    let (j, q, here) = count-slot u w.heap.items p in
    let first : at w.heap.items 0 ≡ t = rw e (unfold at in refl) in
    let le = top-above (task_above w) (task_above-IsOrder w) w.heap.items j o.heap.ordered q in
    ground (arith, le, first, here, b)

-- A round over the waiting tasks fails no assertion and leaves every task in its place. It ends the
-- loop only if the heap is empty, or if the earliest deadline is still ahead; then it changes nothing.
pub wait_round-IsOrderly :
    (w : World) (now : ℕ)
    → IsOrderly w
    → (again : Bool) × (w' : World) × (wait_round w now ≡ some (again, w'))
      × IsOrderly w'
      × ((again ≡ true) ⊎ ((w' ≡ w) × ((t : ℕ) → 0 < asleep w t → now < w.deadline t)))
unfolding wait_round wait_from
wait_round-IsOrderly w now o = elim (List-cases w.heap.items) [
  | inl e ↦ (
    false,
    w,
    rw (e, wait_round) refl,
    o,
    inr (refl, λ t p. absurd (ground (arith, ap (count t) e, p))),
  )
  | inr (t, ts, e) ↦ elim (Bool-cases (ltb now (w.deadline t))) [
    | inl b ↦ (
      false,
      w,
      ap (wait_from w now) e ∙ (unfold wait_top in rw b refl),
      o,
      inr (refl, λ u p. ahead w now t ts o e (ground (arith, b)) u p),
    )
    | inr b ↦
        let (h, f, heap, one, kept) = removed_lem w t ts o.heap e in
        let (i, r, last, k) =
          sleeper (w.status t) (w.inside t) _ _ _ (w.deadline t) (o.placed t)
            (omega (arith, one)) in
        let (w', g, l) =
          expire_all w t h o heap (omega (arith, one, last)) kept i r (w.status t) refl k in
        (
          true,
          w',
          ap (wait_from w now) e ∙ (unfold wait_top in rw b (rw f (rw g refl))),
          l,
          inl refl,
        )
  ]
]

-- The loop over the waiting tasks fails no assertion, whatever its bound, and leaves every task in its
-- place.
pub wait_loop-IsOrderly :
    (n : ℕ) (w : World) (now : ℕ)
    → IsOrderly w
    → (w' : World) × (wait_loop n w now ≡ some w') × IsOrderly w'
unfolding wait_loop
wait_loop-IsOrderly zero w now o = (w, refl, o)
wait_loop-IsOrderly (suc n) w now o =
    let (again, w1, e, l, _) = wait_round-IsOrderly w now o in
    let (w', f, m) = wait_loop-IsOrderly n w1 now l in
    elim (Bool-cases again) [
      | inl b ↦ (w', rw (e, wait_loop) (rw b f), m)
      | inr b ↦ (w1, rw (e, wait_loop) (rw b refl), l)
    ]
