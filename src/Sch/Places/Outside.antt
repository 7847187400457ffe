-- ===== src/Sch/Places/Outside.antt =====
-- What the owner of a task may do to it while it is in no scheduler: deadlines, and the receipt of a
-- signal. And the posts, wake-ups and signals in one go, as their parts one after the other.
use serverbox.Prelude.{
  ℕ, ◌≡◌, refl, inl, inr, Bool, true, false, some, arith, ltb, ◌>>=◌, Bool-cases,
}
use serverbox.Box.Links.{update-eq, update-ne}
use serverbox.Sch.Task.{
  Status, pending, waiting, ready, signaled, World, set_status, set_deadline_of, touch, push_front,
  start_post, exchange_wakeup, start_wakeup, exchange_signal, start_signal, wake, post_wakeup,
  after_signal, post_signal, post, receive_signal, set_deadline, adjust_deadline, task_above,
}
use serverbox.Sch.Places.{to_look, to_run, asleep, IsPlaced, equal_fields, IsOrderly, settle}
use serverbox.Sch.Places.Moves.{restatus-IsOrderly}
use serverbox.Sch.Places.Execution.{agree-IsHeap}

-- a task in no scheduler is in no queue, whatever its deadline
freed :
    (s : Status) (l r h d d' : ℕ) → IsPlaced s false l r h d → (h ≡ 0) × IsPlaced s false l r h d'
freed pending l r h d d' p = (p.2, p)
freed waiting l r h d d' p = absurd (omega (arith, p.0, p.1))
freed ready l r h d d' p = (p.2, p)
freed signaled l r h d d' p = (p.2, p)

redeadline-IsOrderly :
    (w : World) (t d : ℕ) → IsOrderly w → w.inside t ≡ false → IsOrderly (set_deadline_of w t d)
redeadline-IsOrderly w t d o e =
    let (z, p) =
      freed (w.status t) (to_look w t) (to_run w t) (asleep w t) (w.deadline t) d
        (rw e at (o.placed t)) in
    settle w (set_deadline_of w t d) t o
      (agree-IsHeap (task_above w) (task_above (set_deadline_of w t d)) t w.heap o.heap z
        (λ a b na nb. ground (arith, na, nb)))
      (equal_fields _ _ _ _ _ _ _ _ _ _ d _ refl e refl refl refl (update-eq w.deadline t d) p)
      (λ u ne. record {
        status = refl;
        inside = refl;
        look = refl;
        run = refl;
        sleep = refl;
        deadline = update-ne w.deadline t d u ne;
      })

touched : (w : World) (t : ℕ) → w.inside t ≡ false → touch w t ≡ some w
unfolding touch
touched w t e = rw e refl

pub set_deadline-IsOrderly :
    (w : World) (t d : ℕ)
    → IsOrderly w
    → w.inside t ≡ false
    → (w' : World) × (set_deadline w t d ≡ some w') × IsOrderly w'
unfolding set_deadline
set_deadline-IsOrderly w t d o e = (_, rw (touched w t e) refl, redeadline-IsOrderly w t d o e)

pub adjust_deadline-IsOrderly :
    (w : World) (t d : ℕ)
    → IsOrderly w
    → w.inside t ≡ false
    → (w' : World) × (adjust_deadline w t d ≡ some w') × IsOrderly w'
unfolding adjust_deadline
adjust_deadline-IsOrderly w t d o e = elim (Bool-cases (ltb d (w.deadline t))) [
  | inl y ↦ (_, rw (touched w t e) (rw y refl), redeadline-IsOrderly w t d o e)
  | inr y ↦ (w, rw (touched w t e) (rw y refl), o)
]

-- what ReceiveSignal does, by the status
received :
    (w : World) (t : ℕ) (s : Status)
    → IsOrderly w
    → w.inside t ≡ false
    → w.status t ≡ s
    → (found : Bool) × (w' : World) × (receive_signal w t ≡ some (found, w')) × IsOrderly w'
unfolding receive_signal
received w t signaled o e s = (
  true,
  set_status w t pending,
  rw (touched w t e) (rw (s, receive_signal) refl),
  restatus-IsOrderly w t pending o (rw e (rw (s, e) at (o.placed t))),
)
received w t pending o e s = (false, w, rw (touched w t e) (rw (s, receive_signal) refl), o)
received w t waiting o e s = (false, w, rw (touched w t e) (rw (s, receive_signal) refl), o)
received w t ready o e s = (false, w, rw (touched w t e) (rw (s, receive_signal) refl), o)

pub receive_signal-IsOrderly :
    (w : World) (t : ℕ)
    → IsOrderly w
    → w.inside t ≡ false
    → (found : Bool) × (w' : World) × (receive_signal w t ≡ some (found, w')) × IsOrderly w'
receive_signal-IsOrderly w t o e = received w t (w.status t) o e refl

-- The parts, with nothing between them, are the whole.
start_post-post :
    (w : World) (t : ℕ)
    → (start_post w t >>= λ w1. push_front (record w1 { flying = w.flying }) t) ≡ post w t
unfolding start_post post
start_post-post w t = elim (Bool-cases (w.inside t)) [ inl e ↦ rw e refl | inr e ↦ rw e refl ]

start_wakeup-post_wakeup :
    (w : World) (t : ℕ)
    → w.status t ≡ waiting
    → push_front (record (start_wakeup w t) { flying = w.flying }) t ≡ post_wakeup w t
unfolding start_wakeup exchange_wakeup post_wakeup wake
start_wakeup-post_wakeup w t e = rw e refl

start_signal-post_signal :
    (w : World) (t : ℕ)
    → w.status t ≡ waiting
    → push_front (record (start_signal w t) { flying = w.flying }) t ≡ post_signal w t
unfolding start_signal exchange_signal post_signal after_signal
start_signal-post_signal w t e = rw e refl
