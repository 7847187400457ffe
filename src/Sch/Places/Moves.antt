-- ===== src/Sch/Places/Moves.antt =====
-- The operations that any thread may call, and the places of the tasks behind them.
use serverbox.Prelude.{
  ℕ, ◌+◌, ◌≤◌, ◌≡◌, ◌≢◌, refl, inl, inr, Bool, true, false, some, List, [], ◌∷◌, ◌++◌, arith, ◌==◌,
  count, count-append,
}
use serverbox.Box.Links.{update, update-eq, update-ne}
use serverbox.Sch.Task.{
  Status, pending, waiting, ready, signaled, World, set_status, push_front, post, wake, post_wakeup,
  after_signal, post_signal,
}
use serverbox.Sch.Places.{to_look, to_run, asleep, IsPlaced, equal_fields, IsOrderly, Same, settle}

-- one more in a queue that a task is pushed to
pub count-push : (t : ℕ) (xs : List ℕ) → count t (xs ++ t ∷ []) ≡ count t xs + 1
count-push t xs = ground (arith, count-append t xs (t ∷ []))

pub count-push_other : (u t : ℕ) (xs : List ℕ) → u ≢ t → count u (xs ++ t ∷ []) ≡ count u xs
count-push_other u t xs ne = ground (arith, ne, count-append u xs (t ∷ []))

pub entered : (s : Status) (l r h d : ℕ) → IsPlaced s false l r h d → IsPlaced s true (l + 1) r h d
entered pending l r h d p = (omega (arith, p.0), p.1, p.2)
entered waiting l r h d p = absurd (omega (arith, p.0, p.1))
entered ready l r h d p = inl (omega (arith, p.0), p.1, omega (arith, p.2))
entered signaled l r h d p = inl (omega (arith, p.0), p.1, omega (arith, p.2))

-- Post of a task that is in no scheduler passes its assertions and puts it into the front queue, and
-- leaves every task in the place that its status tells.
pub post-IsOrderly :
    (w : World) (t : ℕ)
    → IsOrderly w
    → w.inside t ≡ false
    → (w' : World) × (post w t ≡ some w')
      × IsOrderly w'
      × (w'.front_queue ≡ w.front_queue ++ t ∷ [])
      × (w'.status ≡ w.status)
unfolding post push_front
post-IsOrderly w t o e =
    let w' : World = record w {
      inside = update w.inside t true;
      front_queue = w.front_queue ++ t ∷ [];
    } in
    let same : (t == t) ≡ true = ground arith in
    let there : w'.inside t ≡ true = update-eq w.inside t true in
    (
      w',
      rw (e, same) refl,
      settle w w' t o o.heap
          (equal_fields _ _ _ _ _ _ _ _ _ _ _ _ refl there
            (omega (arith, count-push t w.front_queue)) refl refl refl
            (entered (w.status t) (to_look w t) (to_run w t) (asleep w t) (w.deadline t)
              (rw e at (o.placed t))))
          (λ u ne. record {
            status = refl;
            inside = update-ne w.inside t true u ne;
            look = omega (arith, count-push_other u t w.front_queue ne);
            run = refl;
            sleep = refl;
            deadline = refl;
          }),
      refl,
      refl,
    )

-- the place of a task whose status becomes READY or SIGNALED, from outside
pub stirred :
    (s : Status) (i : Bool) (l r h d : ℕ)
    → s ≢ waiting
    → IsPlaced s i l r h d
    → IsPlaced ready i l r h d × IsPlaced signaled i l r h d
stirred pending false l r h d n p = (p, p)
stirred ready false l r h d n p = (p, p)
stirred signaled false l r h d n p = (p, p)
stirred waiting i l r h d n p = absurd (n refl)
stirred pending true l r h d n p =
    (inl (p.0, p.1, omega (arith, p.2)), inl (p.0, p.1, omega (arith, p.2)))
stirred ready true l r h d n p = (p, p)
stirred signaled true l r h d n p = (p, p)

-- the place of a sleeping task that is woken, and pushed to the front queue
pub woken :
    (i : Bool) (l r h d : ℕ)
    → IsPlaced waiting i l r h d
    → (i ≡ true) × IsPlaced ready true (l + 1) r h d × IsPlaced signaled true (l + 1) r h d
woken false l r h d p = absurd (omega (arith, p.0, p.1))
woken true l r h d p =
    let low : h ≤ 1 = elim p.2 [ inl q ↦ omega (arith, q.1) | inr q ↦ omega (arith, q.1) ] in
    (refl, inl (omega (arith, p.0), p.1, low), inl (omega (arith, p.0), p.1, low))

-- another task sees nothing of a status set and a push to the front queue
pub restatus_other : (w : World) (t : ℕ) (s : Status) (u : ℕ) → u ≢ t → Same w (set_status w t s) u
restatus_other w t s u ne = record {
  status = update-ne w.status t s u ne;
  inside = refl;
  look = refl;
  run = refl;
  sleep = refl;
  deadline = refl;
}

abbrev pub fronted : World → ℕ → Status → World
fronted w t s = record (set_status w t s) { front_queue = w.front_queue ++ t ∷ [] }

fronted_other : (w : World) (t : ℕ) (s : Status) (u : ℕ) → u ≢ t → Same w (fronted w t s) u
fronted_other w t s u ne = record {
  status = update-ne w.status t s u ne;
  inside = refl;
  look = omega (arith, count-push_other u t w.front_queue ne);
  run = refl;
  sleep = refl;
  deadline = refl;
}

-- a status set where it moves the task nowhere
pub restatus-IsOrderly :
    (w : World) (t : ℕ) (s : Status)
    → IsOrderly w
    → IsPlaced s (w.inside t) (to_look w t) (to_run w t) (asleep w t) (w.deadline t)
    → IsOrderly (set_status w t s)
restatus-IsOrderly w t s o p =
    settle w (set_status w t s) t o o.heap
      (equal_fields _ _ _ _ _ _ _ _ _ _ _ _ (update-eq w.status t s) refl refl refl refl refl p)
      (restatus_other w t s)

fronted-IsOrderly :
    (w : World) (t : ℕ) (s : Status)
    → IsOrderly w
    → IsPlaced s true (to_look w t + 1) (to_run w t) (asleep w t) (w.deadline t)
    → w.inside t ≡ true
    → IsOrderly (fronted w t s)
fronted-IsOrderly w t s o p i =
    settle w (fronted w t s) t o o.heap
      (equal_fields _ _ _ _ _ _ _ _ _ _ _ _ (update-eq w.status t s) i
        (omega (arith, count-push t w.front_queue)) refl refl refl p)
      (fronted_other w t s)

push_front_lem :
    (w : World) (t : ℕ) (s : Status)
    → w.inside t ≡ true
    → push_front (set_status w t s) t ≡ some (fronted w t s)
unfolding push_front
push_front_lem w t s e = rw e refl

-- What a wake-up does to the status that it finds: a task that sleeps is pushed to the front queue,
-- and a signal stays.
abbrev pub IsWoken : World → World → ℕ → Status → Type 0
IsWoken w w' t pending = (w'.status t ≡ ready) × (w'.front_queue ≡ w.front_queue)
IsWoken w w' t waiting = (w'.status t ≡ ready) × (w'.front_queue ≡ w.front_queue ++ t ∷ [])
IsWoken w w' t ready = w' ≡ w
IsWoken w w' t signaled = w' ≡ w

wake-IsOrderly :
    (w : World) (t : ℕ) (s : Status)
    → IsOrderly w
    → w.status t ≡ s
    → (w' : World) × (wake w t s ≡ some w') × IsOrderly w' × IsWoken w w' t s
unfolding wake
wake-IsOrderly w t pending o e =
    let (p, _) = stirred pending _ _ _ _ _ (ground arith) (rw e at (o.placed t)) in
    (_, refl, restatus-IsOrderly w t ready o p, (update-eq w.status t ready, refl))
wake-IsOrderly w t waiting o e =
    let (i, p, _) = woken (w.inside t) _ _ _ _ (rw e at (o.placed t)) in
    (
      _,
      push_front_lem w t ready i,
      fronted-IsOrderly w t ready o p i,
      (update-eq w.status t ready, refl),
    )
wake-IsOrderly w t ready o e = (w, refl, o, refl)
wake-IsOrderly w t signaled o e = (w, refl, o, refl)

signal-IsOrderly :
    (w : World) (t : ℕ) (s : Status)
    → IsOrderly w
    → w.status t ≡ s
    → (w' : World) × (after_signal (set_status w t signaled) t s ≡ some w')
      × IsOrderly w'
      × (w'.status t ≡ signaled)
unfolding after_signal
signal-IsOrderly w t pending o e =
    let (_, p) = stirred pending _ _ _ _ _ (ground arith) (rw e at (o.placed t)) in
    (_, refl, restatus-IsOrderly w t signaled o p, update-eq w.status t signaled)
signal-IsOrderly w t waiting o e =
    let (i, _, p) = woken (w.inside t) _ _ _ _ (rw e at (o.placed t)) in
    (
      _,
      push_front_lem w t signaled i,
      fronted-IsOrderly w t signaled o p i,
      update-eq w.status t signaled,
    )
signal-IsOrderly w t ready o e =
    let (_, p) = stirred ready _ _ _ _ _ (ground arith) (rw e at (o.placed t)) in
    (_, refl, restatus-IsOrderly w t signaled o p, update-eq w.status t signaled)
signal-IsOrderly w t signaled o e =
    let (_, p) = stirred signaled _ _ _ _ _ (ground arith) (rw e at (o.placed t)) in
    (_, refl, restatus-IsOrderly w t signaled o p, update-eq w.status t signaled)

-- PostWakeup, of any task at any time, passes its assertions, and leaves every task in its place. A
-- pending task becomes ready, a waiting one becomes ready and is pushed to the front queue, and
-- nothing changes for one that is ready or signaled.
pub post_wakeup-IsOrderly :
    (w : World) (t : ℕ)
    → IsOrderly w
    → (w' : World) × (post_wakeup w t ≡ some w') × IsOrderly w' × IsWoken w w' t (w.status t)
unfolding post_wakeup
post_wakeup-IsOrderly w t o = wake-IsOrderly w t (w.status t) o refl

-- PostSignal, of any task at any time, passes its assertions, leaves the task signaled, and leaves
-- every task in its place.
pub post_signal-IsOrderly :
    (w : World) (t : ℕ)
    → IsOrderly w
    → (w' : World) × (post_signal w t ≡ some w') × IsOrderly w' × (w'.status t ≡ signaled)
unfolding post_signal
post_signal-IsOrderly w t o = signal-IsOrderly w t (w.status t) o refl
