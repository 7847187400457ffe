-- ===== src/Box/ForwardList/Tests.antt =====
-- Runs of the list, and the theorems at a concrete memory.
use serverbox.Prelude.{
  ℕ, zero, suc, ◌==◌, if◌then◌else◌, ◌≡◌, refl, true, Option, none, some, [], ◌∷◌, arith,
}
use serverbox.Box.ForwardList.{
  Loc, first_of, link_of, Mem, append, append_list, move_construct, move_assign, reverse_list, walk,
  is_empty,
}
use serverbox.Box.ForwardList.Represent.{Holds}
use serverbox.Box.ForwardList.Pushes.{append_correct}
use serverbox.Box.ForwardList.Splices.{move_construct-loses, move_assign-Holds}
use serverbox.Box.ForwardList.Joins.{append_list-Holds}
use serverbox.Box.ForwardList.Reversal.{reverse_list-Holds}
use serverbox.Box.ForwardList.Walks.{walk-Holds}

-- list 0 of the items 10 and 11, list 1 of the item 12, and every other list cleared
abbrev first_cell : ℕ → Option ℕ
first_cell zero = some 10
first_cell (suc zero) = some 12
first_cell _ = none

abbrev last_cell : ℕ → Loc
last_cell zero = link_of 11
last_cell (suc zero) = link_of 12
last_cell l = first_of l

abbrev link_cell : ℕ → Option ℕ
link_cell p = if p == 10 then some 11 else none

abbrev mem : Mem
mem = record { first = first_cell; last_link = last_cell; link = link_cell }

represented_0 : Holds mem 0 (10 ∷ 11 ∷ [])
represented_0 = record { chain = (refl, (refl, refl)); ending = refl; distinct = omega arith }

represented_1 : Holds mem 1 (12 ∷ [])
represented_1 = record { chain = (refl, refl); ending = refl; distinct = (tt, tt) }

represented_2 : Holds mem 2 []
represented_2 = record { chain = refl; ending = refl; distinct = tt }

append_correct_example :
    Holds (append mem 0 13) 0 (10 ∷ 11 ∷ 13 ∷ []) × Holds (append mem 0 13) 1 (12 ∷ [])
append_correct_example =
    append_correct mem 0 13 1 (10 ∷ 11 ∷ []) (12 ∷ []) represented_0 represented_1 (omega arith)
      (omega arith) (omega arith) (omega arith)

append_list-Holds_example :
    Holds (append_list mem 0 1) 0 (10 ∷ 11 ∷ 12 ∷ []) × Holds (append_list mem 0 1) 1 []
append_list-Holds_example =
    append_list-Holds mem 0 1 (10 ∷ 11 ∷ []) (12 ∷ []) (omega arith) represented_0 represented_1
      (omega arith)

move_assign-Holds_example :
    Holds (move_assign mem 2 0) 2 (10 ∷ 11 ∷ []) × Holds (move_assign mem 2 0) 0 []
move_assign-Holds_example = move_assign-Holds mem 2 0 (10 ∷ 11 ∷ []) (omega arith) represented_0

move_construct-loses_example :
    (is_empty (append (move_construct mem 3 2) 3 13) 3 ≡ true)
    × ((append (move_construct mem 3 2) 3 13).first 2 ≡ some 13)
move_construct-loses_example = move_construct-loses mem 3 2 13 (omega arith) represented_2

reverse_list-Holds_example :
    (m' : Mem) × (reverse_list 2 mem 0 ≡ some m') × Holds m' 0 (11 ∷ 10 ∷ [])
reverse_list-Holds_example = reverse_list-Holds 2 mem 0 (10 ∷ 11 ∷ []) (omega arith) represented_0

-- a body that clears the link of the item
abbrev unlink : Mem → ℕ → Option ℕ
unlink m p = none

walk-Holds_example : (m' : Mem) × (walk 2 unlink mem 0 ≡ some (10 ∷ 11 ∷ [], m'))
walk-Holds_example = walk-Holds 2 unlink mem 0 (10 ∷ 11 ∷ []) (omega arith) represented_0
