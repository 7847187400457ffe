-- ===== src/Box/ConsumerQueue/Tests.antt =====
-- The theorems at a concrete queue.
use serverbox.Prelude.{ℕ, zero, ◌≡◌, refl, false, Option, none, some, [], ◌∷◌, arith}
use serverbox.Box.ConsumerQueue.{ConsumerQueue, push_item}
use serverbox.Box.ConsumerQueue.Producing.{Queued, push_item-Queued}

abbrev one_cell : ℕ → Option ℕ
one_cell zero = some 4
one_cell _ = none

-- one sub-queue, of one place, that is full
abbrev full_queue : ConsumerQueue
full_queue = record {
  behind = [];
  wpos = record {
    name = 0;
    array = record {
      read = 0;
      flush = 1;
      write = 1;
      first_pending = none;
      cells = one_cell;
      size = 1;
    };
    consumers = 1;
  };
  ahead = [];
  items = 1;
  pending_items = 0;
  sub_queues = 1;
  all_consumers = 1;
}

full_queue-Queued : Queued full_queue (4 ∷ []) []
full_queue-Queued = record {
  older = [];
  newer = 4 ∷ [];
  behind = refl;
  here = record { run = (refl, refl); ended = refl; behind = (refl, refl); fits = omega arith };
  order = refl;
  free = tt;
  size = omega arith;
}

push_item-Queued_example :
    (q' : ConsumerQueue) × (push_item full_queue 6 1 (λ i. some i) ≡ some (false, q'))
    × Queued q' (4 ∷ 6 ∷ []) []
push_item-Queued_example =
    push_item-Queued full_queue 6 1 (λ i. some i) (4 ∷ []) [] full_queue-Queued
