-- ===== src/Box/SubQueue/Tests.antt =====
-- Runs of the sub-queue, and the theorems at a concrete one.
use serverbox.Prelude.{
  ℕ, zero, suc, ◌≡◌, refl, ◌⊎◌, true, false, Option, none, some, List, [], ◌∷◌, ◌++◌, arith,
}
use serverbox.Box.Links.{update}
use serverbox.Box.SubQueue.{
  SubQueue, popped, load_cell, store_cell, exchange_null, take_cell, place_pushed, reset, create,
  push, pop,
}
use serverbox.Box.SubQueue.Contents.{Contains}
use serverbox.Box.SubQueue.Producer.{push-Contains}
use serverbox.Box.SubQueue.Consumer.{pop_first_visible}
use serverbox.Box.SubQueue.Sharing.{
  looking, holding, Shared, finish, enters, looks, swaps, pushes, Reaches, still, then_step, start,
}
use serverbox.Box.SubQueue.Sharing.Fifo.{fifo_kept}

-- the items 5 and 6 are visible, 7 and 8 are pending, and there is room for one more
abbrev cell_values : ℕ → Option ℕ
cell_values zero = some 5
cell_values (suc zero) = some 6
cell_values (suc (suc (suc zero))) = some 8
cell_values _ = none

abbrev half_full : SubQueue
half_full = record {
  read = 0;
  flush = 2;
  write = 4;
  first_pending = some 7;
  cells = cell_values;
  size = 5;
}

half_full-Contains : Contains half_full (5 ∷ 6 ∷ []) (7 ∷ 8 ∷ [])
half_full-Contains = record {
  run = (refl, (refl, refl));
  ended = refl;
  behind = (refl, (refl, refl));
  fits = omega arith;
}

push-Contains_example :
    ((half_full.write ≡ 5) × (push half_full 9 ≡ some (false, half_full)))
    ⊎ ((q' : SubQueue) × (push half_full 9 ≡ some (true, q'))
        × Contains q' (5 ∷ 6 ∷ 7 ∷ 8 ∷ 9 ∷ []) []
        × (q'.read ≡ 0)
        × (q'.size ≡ 5))
push-Contains_example = push-Contains half_full 9 (5 ∷ 6 ∷ []) (7 ∷ 8 ∷ []) half_full-Contains

pop_first_visible_example :
    (q' : SubQueue) × (pop half_full 0 (false ∷ true ∷ []) ≡ some (popped (some 5), q'))
    × Contains q' (6 ∷ []) (7 ∷ 8 ∷ [])
    × (q'.size ≡ 5)
pop_first_visible_example =
    pop_first_visible half_full 5 (6 ∷ []) (7 ∷ 8 ∷ []) 1 [] half_full-Contains

-- the sub-queue when both visible items have been taken
abbrev read_up : SubQueue
read_up = record half_full { read = 2 }

read_up-Contains : Contains read_up [] (7 ∷ 8 ∷ [])
read_up-Contains = record {
  run = refl;
  ended = refl;
  behind = (refl, (refl, refl));
  fits = omega arith;
}

-- a new sub-queue of two cells, over an array that holds whatever it holds
abbrev garbage : ℕ → Option ℕ
garbage i = some i

abbrev fresh : SubQueue
fresh = record {
  read = 0;
  flush = 0;
  write = 0;
  first_pending = none;
  cells = update garbage 0 none;
  size = 2;
}

abbrev with_four : SubQueue
with_four = record fresh {
  flush = 1;
  write = 1;
  cells = update (update fresh.cells 1 none) 0 (some 4);
}

abbrev given_four : Shared
given_four = record (start fresh) { queue = with_four; given_items = 4 ∷ [] }

abbrev consumer_in : Shared
consumer_in = record given_four { phase = update given_four.phase 3 (looking 0) }

abbrev consumer_sees : Shared
consumer_sees = record consumer_in { phase = update consumer_in.phase 3 (holding 0 (some 4)) }

abbrev four_taken : Shared
four_taken = finish consumer_sees 3 (take_cell with_four 0 true (some 4))

-- item 4 goes in, and consumer 3 takes it, step by step
run_of_four : Reaches (start fresh) four_taken
unfolding push place_pushed store_cell exchange_null load_cell
run_of_four =
    let s1 =
      then_step (start fresh) (start fresh) given_four (still _)
        (pushes (start fresh) 4 with_four refl) in
    let s2 = then_step (start fresh) given_four consumer_in s1 (enters given_four 3 refl) in
    let s3 =
      then_step (start fresh) consumer_in consumer_sees s2
        (looks consumer_in 3 0 (some 4) refl (omega arith) refl) in
    then_step (start fresh) consumer_sees four_taken s3 (swaps consumer_sees 3 0 (some 4) true refl)

fresh_made : create 2 garbage ≡ some fresh
unfolding create reset store_cell
fresh_made = refl

fifo_kept_example :
    (visible : List ℕ) × (pending : List ℕ) × Contains four_taken.queue visible pending
    × (four_taken.taken_items ++ (visible ++ pending) ≡ 4 ∷ [])
unfolding finish take_cell
fifo_kept_example = fifo_kept 2 garbage fresh four_taken fresh_made run_of_four
