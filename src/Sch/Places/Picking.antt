-- ===== src/Sch/Places/Picking.antt =====
-- What becomes of a pending task that is dispatched, or that goes to sleep.
use serverbox.Prelude.{
  ℕ, ◌+◌, ◌≤◌, ◌≡◌, ◌≢◌, refl, ap, ◌⊎◌, inl, inr, Bool, true, some, List, [], ◌∷◌, ◌++◌, arith,
  count,
}
use serverbox.Box.Links.{update-eq, update-ne}
use serverbox.Sch.Task.{Status, waiting, ready, signaled, World, set_status}
use serverbox.Sch.Scheduler.{pick, dispatch, sleep}
use serverbox.Sch.Places.{to_look, to_run, asleep, IsPlaced, equal_fields, IsOrderly, settle}
use serverbox.Sch.Places.Moves.{count-push, count-push_other}
use serverbox.Sch.Places.Heaped.{dispatch_lem, sleep_lem}

picked_place :
    (s : Status) (l r h d : ℕ)
    → (s ≡ ready) ⊎ (s ≡ signaled)
    → l ≡ 0
    → r ≡ 1
    → h ≡ 0
    → IsPlaced s true l r h d
picked_place s l r h d (inl e) a b c = rw e (inr (a, b, c))
picked_place s l r h d (inr e) a b c = rw e (inr (a, b, c))

-- the world with the first pending task in the hand, and the changes to its own fields
abbrev pub in_hand : World → (ℕ → Status) → (ℕ → Bool) → List ℕ → World
in_hand w st ex ts = record w { status = st; expired = ex; pending_queue = ts }

module _ (w : World) (t : ℕ) (ts : List ℕ) (o : IsOrderly w) (first : w.pending_queue ≡ t ∷ ts)
    (inside : w.inside t ≡ true) (look : to_look w t ≡ 1) (run : to_run w t ≡ 0) where
  none_left : count t w.flying + count t w.front_queue + count t ts ≡ 0
  none_left = ground (arith, look, ap (count t) first)

  others_look :
      (u : ℕ) → u ≢ t → count u w.flying + count u w.front_queue + count u ts ≡ to_look w u
  others_look u ne = ground (arith, ne, ap (count u) first)

  pub dispatch-IsOrderly :
      (st : ℕ → Status) (ex : ℕ → Bool)
      → asleep w t ≤ 1
      → (st t ≡ ready) ⊎ (st t ≡ signaled)
      → ((u : ℕ) → u ≢ t → st u ≡ w.status u)
      → (w' : World) × (dispatch (in_hand w st ex ts) t ≡ some w')
        × IsOrderly w'
        × (w'.picked ≡ w.picked ++ t ∷ [])
        × (w'.status ≡ st)
        × (w'.expired ≡ ex)
  dispatch-IsOrderly st ex le s others =
      let (h, e, heap, gone, kept) = dispatch_lem (in_hand w st ex ts) t o.heap le in
      (
        _,
        e,
        settle w (pick (record (in_hand w st ex ts) { heap = h }) t) t o heap
            (equal_fields _ _ _ _ _ _ _ _ _ _ _ _ refl inside refl refl refl refl (
              picked_place (st t) _ _ _ (w.deadline t) s none_left
                (omega (arith, run, count-push t w.picked)) gone))
            (λ u ne. record {
              status = others u ne;
              inside = refl;
              look = others_look u ne;
              run = omega (arith, count-push_other u t w.picked ne);
              sleep = kept u ne;
              deadline = refl;
            }),
        refl,
        refl,
        refl,
      )

  pub sleep-IsOrderly :
      (ex : ℕ → Bool)
      → asleep w t ≡ 0
      → (w' : World) × (sleep (in_hand w w.status ex ts) t ≡ some w')
        × IsOrderly w'
        × (w'.picked ≡ w.picked)
        × (w'.status t ≡ waiting)
        × (w'.expired ≡ ex)
  sleep-IsOrderly ex z =
      let (h, e, heap, place, kept) = sleep_lem (in_hand w w.status ex ts) t o.heap z in
      (
        _,
        e,
        settle w (record (set_status (in_hand w w.status ex ts) t waiting) { heap = h }) t o heap
            (equal_fields waiting _ true _ _ _ _ _ _ _ _ _ (update-eq w.status t waiting) inside
              refl refl refl refl (none_left, run, place))
            (λ u ne. record {
              status = update-ne w.status t waiting u ne;
              inside = refl;
              look = others_look u ne;
              run = refl;
              sleep = kept u ne;
              deadline = refl;
            }),
        refl,
        update-eq w.status t waiting,
        refl,
      )
