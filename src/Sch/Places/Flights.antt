-- ===== src/Sch/Places/Flights.antt =====
-- The steps of the threads that post, wake and signal tasks, each with at most one access to what the
-- threads share, and what a task outside of the scheduler is done to.
use serverbox.Prelude.{
  ℕ, ◌+◌, ◌<◌, ◌≡◌, refl, ap, Bool, true, false, some, List, [], ◌∷◌, ◌++◌, arith, count,
  count-append,
}
use serverbox.Box.Links.{update, update-eq, update-ne}
use serverbox.Sch.Task.{
  Status, pending, waiting, ready, signaled, World, set_status, push_front, start_post,
  exchange_wakeup, start_wakeup, exchange_signal, start_signal,
}
use serverbox.Sch.Places.{to_look, to_run, asleep, IsPlaced, equal_fields, IsOrderly, settle}
use serverbox.Sch.Places.Moves.{entered, stirred, woken, restatus-IsOrderly}

-- a status set, with the push still ahead
abbrev flown : World → ℕ → Status → World
flown w t s = record (set_status w t s) { flying = t ∷ w.flying }

flown-IsOrderly :
    (w : World) (t : ℕ) (s : Status)
    → IsOrderly w
    → IsPlaced s true (to_look w t + 1) (to_run w t) (asleep w t) (w.deadline t)
    → w.inside t ≡ true
    → IsOrderly (flown w t s)
flown-IsOrderly w t s o p i =
    settle w (flown w t s) t o o.heap
      (equal_fields _ _ _ _ _ _ _ _ _ _ _ _ (update-eq w.status t s) i (ground arith) refl refl refl
        p)
      (λ u ne. record {
        status = update-ne w.status t s u ne;
        inside = refl;
        look = ground (arith, ne);
        run = refl;
        sleep = refl;
        deadline = refl;
      })

exchange_wakeup-IsOrderly :
    (w : World) (t : ℕ) (s : Status)
    → IsOrderly w
    → w.status t ≡ s
    → IsOrderly (exchange_wakeup w t s)
unfolding exchange_wakeup
exchange_wakeup-IsOrderly w t pending o e =
    restatus-IsOrderly w t ready o
      (stirred pending _ _ _ _ _ (ground arith) (rw e at (o.placed t))).0
exchange_wakeup-IsOrderly w t waiting o e =
    let (i, p, _) = woken (w.inside t) _ _ _ _ (rw e at (o.placed t)) in
    flown-IsOrderly w t ready o p i
exchange_wakeup-IsOrderly w t ready o e = o
exchange_wakeup-IsOrderly w t signaled o e = o

-- The exchange of PostWakeup leaves every task in its place, or on its way to it.
pub start_wakeup-IsOrderly : (w : World) (t : ℕ) → IsOrderly w → IsOrderly (start_wakeup w t)
unfolding start_wakeup
start_wakeup-IsOrderly w t o = exchange_wakeup-IsOrderly w t (w.status t) o refl

exchange_signal-IsOrderly :
    (w : World) (t : ℕ) (s : Status)
    → IsOrderly w
    → w.status t ≡ s
    → IsOrderly (exchange_signal w t s)
unfolding exchange_signal
exchange_signal-IsOrderly w t pending o e =
    restatus-IsOrderly w t signaled o
      (stirred pending _ _ _ _ _ (ground arith) (rw e at (o.placed t))).1
exchange_signal-IsOrderly w t waiting o e =
    let (i, _, p) = woken (w.inside t) _ _ _ _ (rw e at (o.placed t)) in
    flown-IsOrderly w t signaled o p i
exchange_signal-IsOrderly w t ready o e =
    restatus-IsOrderly w t signaled o
      (stirred ready _ _ _ _ _ (ground arith) (rw e at (o.placed t))).1
exchange_signal-IsOrderly w t signaled o e =
    restatus-IsOrderly w t signaled o
      (stirred signaled _ _ _ _ _ (ground arith) (rw e at (o.placed t))).1

-- The exchange of PostSignal leaves every task in its place, or on its way to it.
pub start_signal-IsOrderly : (w : World) (t : ℕ) → IsOrderly w → IsOrderly (start_signal w t)
unfolding start_signal
start_signal-IsOrderly w t o = exchange_signal-IsOrderly w t (w.status t) o refl

-- Post before its push passes its assertion and leaves the task on its way to the front queue.
pub start_post-IsOrderly :
    (w : World) (t : ℕ)
    → IsOrderly w
    → w.inside t ≡ false
    → (w' : World) × (start_post w t ≡ some w') × IsOrderly w'
unfolding start_post
start_post-IsOrderly w t o e =
    let w' : World = record w { inside = update w.inside t true; flying = t ∷ w.flying } in
    let there : w'.inside t ≡ true = update-eq w.inside t true in
    (
      w',
      rw e refl,
      settle w w' t o o.heap
          (equal_fields _ _ _ _ _ _ _ _ _ _ _ _ refl there (ground arith) refl refl refl (
            entered (w.status t) (to_look w t) (to_run w t) (asleep w t) (w.deadline t)
              (rw e at (o.placed t))))
          (λ u ne. record {
            status = refl;
            inside = update-ne w.inside t true u ne;
            look = ground (arith, ne);
            run = refl;
            sleep = refl;
            deadline = refl;
          }),
    )

-- what is on its way to the front queue is in the scheduler
bound : (s : Status) (i : Bool) (l r h d : ℕ) → IsPlaced s i l r h d → 0 < l → i ≡ true
bound s true l r h d p q = refl
bound pending false l r h d p q = absurd (omega (arith, p.0, q))
bound waiting false l r h d p q = absurd (omega (arith, p.0, q))
bound ready false l r h d p q = absurd (omega (arith, p.0, q))
bound signaled false l r h d p q = absurd (omega (arith, p.0, q))

pub flying_inside : (w : World) (t : ℕ) → IsOrderly w → 0 < count t w.flying → w.inside t ≡ true
flying_inside w t o p = bound (w.status t) (w.inside t) _ _ _ _ (o.placed t) (omega (arith, p))

between :
    (u t : ℕ) (xs ys : List ℕ) → count u (xs ++ t ∷ ys) ≡ count u (xs ++ ys) + count u (t ∷ [])
between u t xs ys = ground (arith, count-append u xs (t ∷ ys), count-append u xs ys)

-- The push passes its assertion, and brings the task to the front queue.
pub push_front-IsOrderly :
    (w : World) (t : ℕ) (xs ys : List ℕ)
    → IsOrderly w
    → w.flying ≡ xs ++ t ∷ ys
    → (w' : World) × (push_front (record w { flying = xs ++ ys }) t ≡ some w') × IsOrderly w'
unfolding push_front
push_front-IsOrderly w t xs ys o e =
    let here : 0 < count t w.flying = ground (arith, e, between t t xs ys) in
    let w' : World = record w { flying = xs ++ ys; front_queue = w.front_queue ++ t ∷ [] } in
    let moved : (u : ℕ) → to_look w' u ≡ to_look w u = λ u.
      omega (arith, ap (count u) e, between u t xs ys, count-append u w.front_queue (t ∷ [])) in
    (
      w',
      rw (flying_inside w t o here) refl,
      record {
        heap = o.heap;
        placed = λ u.
            equal_fields _ _ _ _ _ _ _ _ _ _ _ _ refl refl (moved u) refl refl refl (o.placed u);
      },
    )
