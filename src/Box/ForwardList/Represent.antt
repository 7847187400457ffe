-- ===== src/Box/ForwardList/Represent.antt =====
-- When a list object of the memory stands for a list of items, and what that says of its fields.
use serverbox.Prelude.{ℕ, ◌≡◌, ◌≢◌, Option, none, some, List, [], ◌∷◌, arith}
use serverbox.Box.Links.{update-ne, Seg, Distinct, last}
use serverbox.Box.ForwardList.{Loc, first_of, link_of, Mem, get_last, clear}

-- Where `myLastLink` of the list `l` of the items `xs` points.
abbrev pub last_loc : ℕ → List ℕ → Loc
last_loc l [] = first_of l
last_loc l (x ∷ xs) = link_of (last x xs)

-- `l` stands for `xs`: the chain from `myFirst` runs through them to a null link, no item occurs
-- twice, and `myLastLink` points at the place of that null.
pub record Holds (m : Mem) (l : ℕ) (xs : List ℕ) : Type 0 where
  pub chain : Seg m.link (m.first l) xs none
  pub ending : m.last_link l ≡ last_loc l xs
  pub distinct : Distinct xs

-- The last item, if there is one.
abbrev pub last? : List ℕ → Option ℕ
last? [] = none
last? (x ∷ xs) = some (last x xs)

-- A cleared list stands for no items.
pub clear-Holds : (m : Mem) (l : ℕ) → Holds (clear m l) l []
unfolding clear
clear-Holds m l = record { chain = ground arith; ending = ground arith; distinct = tt }

pub clear-Holds_other :
    (m : Mem) (l k : ℕ) (xs : List ℕ) → k ≢ l → Holds m k xs → Holds (clear m l) k xs
unfolding clear
clear-Holds_other m l k xs ne h = record {
  chain = rw (update-ne m.first l none k ne) h.chain;
  ending = rw (update-ne m.last_link l (first_of l) k ne) h.ending;
  distinct = h.distinct;
}

pub get_last-Holds : (m : Mem) (l : ℕ) (xs : List ℕ) → Holds m l xs → get_last m l ≡ some (last? xs)
unfolding get_last
get_last-Holds m l [] h = ground (arith, h.ending)
get_last-Holds m l (x ∷ xs) h = ground (arith, h.ending)
