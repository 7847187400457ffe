-- ===== src/Box/InterruptibleMutex/Exclusion.antt =====
-- The steps of many threads, from a new mutex.
use serverbox.Prelude.{
  ℕ, ◌+◌, ◌≤◌, ◌≡◌, refl, sym, ap, ◌∙◌, subst, ◌≢◌, inr, Bool, true, false, some, List, [], ◌∷◌,
  arith,
}
use serverbox.Box.InterruptibleMutex.{
  Place, Mutex, is_empty, Action, act, Enabled, Reaches, new_mutex, free, arrived, found_free,
  found_taken, handing, popped, updated, done, tries, unlocks, returns, locks_inner, hands_over,
  advances, still, then_act,
}
use serverbox.Box.InterruptibleMutex.Owners.{
  inside, owners, count, Settled, FlagsAt, IsExclusive, Kept, try_lock-Kept, unlock-Kept,
  return_owner-Kept, locks_inner-Kept, hands_over-Kept,
}
use serverbox.Box.InterruptibleMutex.Handing.{advance-Kept}

act-Kept : (a : Action) (w : Mutex) → IsExclusive w → Enabled a w → Kept (act a w)
unfolding act
act-Kept tries w i e =
    try_lock-Kept w.taken w.has_waiters w.waiters w.place w.holding w.leaving w.given w.wakeups i
act-Kept unlocks w i e =
    unlock-Kept w.taken w.has_waiters w.waiters w.place w.holding w.leaving w.given w.wakeups i e
act-Kept returns w i e =
    return_owner-Kept w.taken w.has_waiters w.waiters w.place w.holding w.leaving w.given w.wakeups
      i e
act-Kept (locks_inner x) w i e = locks_inner-Kept x w i e
act-Kept hands_over w i e =
    hands_over-Kept w.taken w.has_waiters w.waiters w.holding w.leaving w.given w.wakeups
      (record {
        counted =
            subst (λ k. (w.holding + w.leaving + w.given + inside k) ≡ count w.taken) e.1 i.counted;
        flags = subst (λ k. FlagsAt k w.taken w.has_waiters w.waiters) e.1 i.flags;
        told = i.told;
      })
      e.0
act-Kept advances w i e =
    advance-Kept w.taken w.has_waiters w.waiters w.place w.holding w.leaving w.given w.wakeups i

Reaches-IsExclusive : (v w : Mutex) → IsExclusive v → Reaches v w → IsExclusive w
Reaches-IsExclusive _ _ i (still w) = i
Reaches-IsExclusive _ _ i (then_act a u v w r e q) =
    let (w', q', i') = act-Kept a v (Reaches-IsExclusive u v i r) e in
    let same : w' ≡ w = ground (arith, q, q') in subst IsExclusive same i'

new_mutex-IsExclusive : IsExclusive new_mutex
unfolding is_empty
new_mutex-IsExclusive = record { counted = refl; flags = (refl, refl); told = inr refl }

count_most : (t : Bool) → count t ≤ 1
count_most true = omega arith
count_most false = omega arith

one_waits : (t f : Bool) (x : ℕ) (ws : List ℕ) → Settled t f (x ∷ ws) → t ≡ true
unfolding is_empty
one_waits true f x ws k = refl
one_waits false true x ws k = absurd (ground (arith, k.1))
one_waits false false x ws k = absurd (ground (arith, k.0))

some_owner : (p : Place) (t f : Bool) (ws : List ℕ) → FlagsAt p t f ws → ws ≢ [] → t ≡ true
some_owner p t f [] k n = absurd (n refl)
some_owner free t f (x ∷ ws) k n = one_waits t f x ws k
some_owner (arrived y) t f (x ∷ ws) k n = one_waits t f x ws k
some_owner found_free t f (x ∷ ws) k n = absurd (n k.2)
some_owner (found_taken y) t f (x ∷ ws) k n = k.0
some_owner handing t f (x ∷ ws) k n = k.0
some_owner (popped y) t f (x ∷ ws) k n = k.0
some_owner (updated y) t f (x ∷ ws) k n = one_waits t f x ws k
some_owner done t f (x ∷ ws) k n = one_waits t f x ws k

-- From a new mutex, after any steps of any number of threads in Lock(), TryLock() and Unlock(): at
-- most one thread owns the mutex, exactly one does if there are waiters, and each step that a thread
-- can make passes its assertions. Only threads that own the mutex call Unlock().
pub one_owner :
    (w : Mutex)
    → Reaches new_mutex w
    → (owners w ≤ 1)
      × (w.waiters ≢ [] → owners w ≡ 1)
      × ((a : Action) → Enabled a w → (w' : Mutex) × (act a w ≡ some w'))
one_owner w r =
    let i = Reaches-IsExclusive new_mutex w new_mutex-IsExclusive r in
    (
      subst (λ k. k ≤ 1) (sym i.counted) (count_most w.taken),
      λ n. i.counted ∙ ap count (some_owner w.place w.taken w.has_waiters w.waiters i.flags n),
      λ a e. let (w', q, j) = act-Kept a w i e in (w', q),
    )
