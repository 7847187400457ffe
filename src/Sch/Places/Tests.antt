-- ===== src/Sch/Places/Tests.antt =====
-- Tasks on their way through the scheduler, and the theorems at concrete worlds.
use serverbox.Prelude.{
  ℕ, ◌<◌, count, ◌≡◌, refl, ◌⊎◌, inr, Bool, true, false, none, some, List, [], ◌∷◌, arith, ◌==◌,
  if◌then◌else◌,
}
use serverbox.Box.Links.{update, update-ne}
use serverbox.Box.BinaryHeap.Slots.{at}
use serverbox.Sch.Task.{
  push_front, start_post, exchange_signal, start_signal, pending, waiting, ready, signaled, World,
  post, post_wakeup, post_signal,
}
use serverbox.Sch.Scheduler.{pend_first, wait_round, schedule, execute}
use serverbox.Sch.Places.{IsOrderly, asleep, settle}
use serverbox.Sch.Places.Moves.{post-IsOrderly, post_wakeup-IsOrderly, post_signal-IsOrderly}
use serverbox.Sch.Places.Dispatch.{Fate, pend_first-IsOrderly}
use serverbox.Sch.Places.Expiry.{wait_round-IsOrderly}
use serverbox.Sch.Places.Execution.{IsTaken, execute-IsOrderly}
use serverbox.Sch.Places.Runs.{Runs, still, then_step, posts, signals, pushes, execute-Runs}
use serverbox.Sch.Places.Schedule.{schedule-IsOrderly, schedules, schedules_starve}

-- a scheduler of batch size one without tasks
abbrev idle_world : World
idle_world = record {
  status = λ t. pending;
  deadline = λ t. 0;
  expired = λ t. false;
  inside = λ t. false;
  flying = [];
  front_queue = [];
  pending_queue = [];
  heap = record { items = []; index = λ t. none };
  picked = [];
  ready_queue = [];
  sched_batch = 1;
}

no_tasks : IsOrderly idle_world
no_tasks = record {
  heap = record {
    ordered = λ c p q. absurd (omega (arith, q));
    indexed = record {
      points = λ q j e. ground (arith, e);
      stored = λ j h. absurd (omega (arith, h));
    };
  };
  placed = λ t. (refl, refl, refl);
}

-- task 5, just collected from the front queue, with the deadline 9
abbrev arrived_world : World
arrived_world = record idle_world {
  deadline = update idle_world.deadline 5 9;
  inside = update idle_world.inside 5 true;
  pending_queue = 5 ∷ [];
}

five_arrived : IsOrderly arrived_world
five_arrived =
    settle idle_world arrived_world 5 no_tasks
      record {
        ordered = λ c p q. absurd (omega (arith, q));
        indexed = record {
          points = λ q j e. ground (arith, e);
          stored = λ j h. absurd (omega (arith, h));
        };
      }
      (refl, refl, refl)
      (λ u ne. record {
        status = refl;
        inside = update-ne idle_world.inside 5 true u ne;
        look = ground (arith, ne);
        run = refl;
        sleep = refl;
        deadline = update-ne idle_world.deadline 5 9 u ne;
      })

-- task 5 asleep in the heap, until 9
abbrev asleep_world : World
asleep_world = record idle_world {
  status = update idle_world.status 5 waiting;
  deadline = update idle_world.deadline 5 9;
  inside = update idle_world.inside 5 true;
  heap = record { items = 5 ∷ []; index = λ t. if t == 5 then some 0 else none };
}

five_asleep : IsOrderly asleep_world
unfolding at
five_asleep =
    settle idle_world asleep_world 5 no_tasks
      record {
        ordered = λ c p q. absurd (omega (arith, p, q));
        indexed = record { points = λ q j e. ground (arith, e); stored = λ j h. ground (arith, h) };
      }
      (refl, refl, inr (ground arith, refl))
      (λ u ne. record {
        status = update-ne idle_world.status 5 waiting u ne;
        inside = update-ne idle_world.inside 5 true u ne;
        look = refl;
        run = refl;
        sleep = ground (arith, ne);
        deadline = update-ne idle_world.deadline 5 9 u ne;
      })

-- task 5 in the ready queue
abbrev ready_world : World
ready_world = record idle_world {
  status = update idle_world.status 5 ready;
  inside = update idle_world.inside 5 true;
  ready_queue = 5 ∷ [];
}

five_ready : IsOrderly ready_world
five_ready =
    settle idle_world ready_world 5 no_tasks no_tasks.heap (inr (refl, refl, refl)) (λ u ne.
      record {
        status = update-ne idle_world.status 5 ready u ne;
        inside = update-ne idle_world.inside 5 true u ne;
        look = refl;
        run = ground (arith, ne);
        sleep = refl;
        deadline = refl;
      })

post-IsOrderly_example :
    (w' : World) × (post idle_world 5 ≡ some w')
    × IsOrderly w'
    × (w'.front_queue ≡ 5 ∷ [])
    × (w'.status ≡ idle_world.status)
post-IsOrderly_example = post-IsOrderly idle_world 5 no_tasks refl

post_wakeup-IsOrderly_example :
    (w' : World) × (post_wakeup asleep_world 5 ≡ some w')
    × IsOrderly w'
    × ((w'.status 5 ≡ ready) × (w'.front_queue ≡ 5 ∷ []))
post_wakeup-IsOrderly_example = post_wakeup-IsOrderly asleep_world 5 five_asleep

post_signal-IsOrderly_example :
    (w' : World) × (post_signal asleep_world 5 ≡ some w') × IsOrderly w' × (w'.status 5 ≡ signaled)
post_signal-IsOrderly_example = post_signal-IsOrderly asleep_world 5 five_asleep

pend_first-IsOrderly_example :
    (w' : World) × (pend_first (record arrived_world { pending_queue = [] }) 3 5 ≡ some w')
    × IsOrderly w'
    × (w'.expired 5 ≡ false)
    × Fate arrived_world w' 5 3
pend_first-IsOrderly_example = pend_first-IsOrderly arrived_world 3 5 [] five_arrived refl

wait_round-IsOrderly_example :
    (again : Bool) × (w' : World) × (wait_round asleep_world 12 ≡ some (again, w'))
    × IsOrderly w'
    × ((again ≡ true)
        ⊎ ((w' ≡ asleep_world)
            × ((t : ℕ) → 0 < asleep asleep_world t → 12 < asleep_world.deadline t)))
wait_round-IsOrderly_example = wait_round-IsOrderly asleep_world 12 five_asleep

execute-IsOrderly_example :
    ((ready_world.ready_queue ≡ []) × (execute ready_world ≡ some (false, ready_world)))
    ⊎ ((t : ℕ) × (ts : List ℕ) × (w' : World) × (ready_world.ready_queue ≡ t ∷ ts)
        × (execute ready_world ≡ some (true, w'))
        × IsOrderly w'
        × (w'.inside t ≡ false)
        × IsTaken ready_world w' t ts)
execute-IsOrderly_example = execute-IsOrderly ready_world five_ready

schedule-IsOrderly_example :
    (w' : World) × (schedule arrived_world 12 ≡ some w') × IsOrderly w' × (w'.picked ≡ [])
schedule-IsOrderly_example = schedule-IsOrderly arrived_world 12 five_arrived

schedules_starve_example :
    (w' : World) × (schedules (12 ∷ 13 ∷ []) arrived_world ≡ some w') × (w'.ready_queue ≡ [])
schedules_starve_example = schedules_starve (12 ∷ 13 ∷ []) arrived_world refl refl

-- task 7 is posted, and task 5 is signaled before the push
abbrev seven_posted : World
seven_posted = record ready_world { inside = update ready_world.inside 7 true; flying = 7 ∷ [] }

abbrev five_signaled : World
five_signaled = record seven_posted { status = update ready_world.status 5 signaled }

abbrev seven_pushed : World
seven_pushed = record five_signaled { flying = []; front_queue = 7 ∷ [] }

signaled_late : Runs ready_world seven_pushed
unfolding start_post start_signal exchange_signal push_front
signaled_late =
    then_step ready_world five_signaled seven_pushed
      (then_step ready_world seven_posted five_signaled
        (then_step ready_world ready_world seven_posted (still ready_world)
          (posts ready_world seven_posted 7 refl refl))
        (signals seven_posted 5))
      (pushes five_signaled seven_pushed 7 [] [] refl refl)

execute-Runs_example :
    (w' : World) × (execute seven_pushed ≡ some (true, w'))
    × IsOrderly w'
    × (w'.inside 5 ≡ false)
    × IsTaken seven_pushed w' 5 []
    × ((u : ℕ) → 0 < count u w'.flying → w'.inside u ≡ true)
execute-Runs_example = execute-Runs ready_world seven_pushed 5 [] five_ready signaled_late refl
