-- ===== src/Box/FrontQueue/Tests.antt =====
-- The theorems at a concrete queue.
use serverbox.Prelude.{ℕ, ◌≡◌, refl, Option, none, some, [], ◌∷◌, ◌==◌, if◌then◌else◌, arith}
use serverbox.Box.Links.{Seg}
use serverbox.Box.FrontQueue.{FrontQueue, take_all}
use serverbox.Box.FrontQueue.Order.{Stacks, take_all-Stacks}

-- item 8 was pushed behind item 7
abbrev two_pushed : FrontQueue
two_pushed = record { head = some 8; link = λ p. if p == 8 then some 7 else none }

two_stacked : Stacks two_pushed (8 ∷ 7 ∷ [])
two_stacked = record { chain = (refl, (refl, refl)); distinct = omega arith }

take_all-Stacks_example :
    (first : Option ℕ) × (q' : FrontQueue) × (take_all 2 two_pushed ≡ some (first, some 8, q'))
    × Seg q'.link first (7 ∷ 8 ∷ []) none
    × Stacks q' []
take_all-Stacks_example = take_all-Stacks 2 two_pushed (8 ∷ 7 ∷ []) (omega arith) two_stacked
