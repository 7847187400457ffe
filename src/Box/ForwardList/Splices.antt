-- ===== src/Box/ForwardList/Splices.antt =====
-- What the operations on ranges and on two lists do: Append and Prepend of a range or of another
-- list, Insert, PopAll, and the two moves.
use serverbox.Prelude.{ℕ, ◌≡◌, refl, ◌≢◌, true, Option, none, some, List, [], ◌∷◌, ◌++◌, arith, ◌∙◌}
use serverbox.Box.Links.{
  update, update-ne, update-eq, sym_ne, Seg, Distinct, Disjoint, last, Seg-redirect, Seg-splice,
  Distinct-append, last-append,
}
use serverbox.Box.ForwardList.{
  Loc, first_of, Mem, set_first, set_last, clear, move_construct, append, append_range, pop_all,
  move_assign, is_empty,
}
use serverbox.Box.ForwardList.Represent.{last_loc, last?, Holds, get_last-Holds, clear-Holds}

-- Append of a range, whose items are chained up to the last, whatever its own link holds
pub append_range-Holds :
    (m : Mem) (l : ℕ) (xs : List ℕ) (y : ℕ) (ys : List ℕ) (e : Option ℕ)
    → Holds m l xs
    → Seg m.link (some y) (y ∷ ys) e
    → Distinct (y ∷ ys)
    → Disjoint xs (y ∷ ys)
    → (m' : Mem) × (append_range m l (some y) (some (last y ys)) ≡ some m')
      × Holds m' l (xs ++ y ∷ ys)
unfolding append_range
append_range-Holds m l [] y ys e h s d j = (
  _,
  refl,
  rw h.ending (record {
    chain = rw (update-eq m.first l (some y)) (Seg-redirect m.link (some y) y ys e none d s);
    ending = ground arith;
    distinct = d;
  }),
)
append_range-Holds m l (x ∷ xs) y ys e h s d j = (
  _,
  refl,
  rw h.ending (record {
    chain = Seg-splice m.link (m.first l) x xs none e none y ys h.distinct d j h.chain s;
    ending = rw (last-append x xs y ys) (ground arith);
    distinct = Distinct-append (x ∷ xs) (y ∷ ys) h.distinct d j;
  }),
)

-- PopAll gives the first and the last item, and leaves an empty list.
pub pop_all-Holds :
    (m : Mem) (l : ℕ) (xs : List ℕ)
    → Holds m l xs
    → (m' : Mem) × (pop_all m l ≡ some (m.first l, last? xs, m'))
      × Holds m' l []
      × (m'.link ≡ m.link)
unfolding pop_all clear
pop_all-Holds m l xs h =
    (clear m l, rw (get_last-Holds m l xs h, pop_all) refl, clear-Holds m l, refl)

-- the items of a list under another list object, with the first object cleared
pub handed_over :
    (m : Mem) (l src x : ℕ) (xs : List ℕ)
    → m.first l ≡ some x
    → l ≢ src
    → (loc : Loc) → loc ≡ last_loc src (x ∷ xs)
    → Seg m.link (m.link x) xs none
    → Distinct (x ∷ xs)
    → Holds (clear (set_last m l loc) src) l (x ∷ xs) × Holds (clear (set_last m l loc) src) src []
unfolding clear
handed_over m l src x xs f ne loc e s d = (
  record {
    chain = (update-ne m.first src none l ne ∙ f, s);
    ending =
        update-ne (update m.last_link l loc) src (first_of src) l ne
        ∙ update-eq m.last_link l loc
        ∙ e;
    distinct = d;
  },
  clear-Holds _ src,
)

-- The move constructor, from a list with items
pub move_construct-Holds :
    (m : Mem) (l src x : ℕ) (xs : List ℕ)
    → l ≢ src
    → Holds m src (x ∷ xs)
    → Holds (move_construct m l src) l (x ∷ xs) × Holds (move_construct m l src) src []
unfolding move_construct
move_construct-Holds m l src x xs ne h =
    handed_over (set_first m l (m.first src)) l src x xs
      (update-eq m.first l (m.first src) ∙ h.chain.0) ne (m.last_link src) h.ending h.chain.1
      h.distinct

-- The move constructor, from an empty list: the next item appended to the new list does not get
-- into it, but into the list that was moved from.
pub move_construct-loses :
    (m : Mem) (l src item : ℕ)
    → l ≢ src
    → Holds m src []
    → (is_empty (append (move_construct m l src) l item) l ≡ true)
      × ((append (move_construct m l src) l item).first src ≡ some item)
unfolding move_construct clear append is_empty
move_construct-loses m l src item ne h = ground (arith, ne, h.chain, h.ending)

move_assign_empty :
    (m : Mem) (l src : ℕ)
    → m.first src ≡ none
    → move_assign m l src ≡ set_last (set_first m l none) l (first_of l)
unfolding move_assign
move_assign_empty m l src e = ground (arith, e)

move_assign_nonempty :
    (m : Mem) (l src x : ℕ)
    → m.first src ≡ some x
    → move_assign m l src ≡ clear (set_last (set_first m l (some x)) l (m.last_link src)) src
unfolding move_assign
move_assign_nonempty m l src x e = ground (arith, e)

-- The move assignment, from any list
pub move_assign-Holds :
    (m : Mem) (l src : ℕ) (xs : List ℕ)
    → l ≢ src
    → Holds m src xs
    → Holds (move_assign m l src) l xs × Holds (move_assign m l src) src []
move_assign-Holds m l src [] ne h = rw (move_assign_empty m l src h.chain) (
  record { chain = ground arith; ending = ground arith; distinct = tt },
  record {
    chain = rw (update-ne m.first l none src (sym_ne _ _ ne)) h.chain;
    ending = rw (update-ne m.last_link l (first_of l) src (sym_ne _ _ ne)) h.ending;
    distinct = tt;
  },
)
move_assign-Holds m l src (x ∷ xs) ne h = rw (move_assign_nonempty m l src x h.chain.0) (
    handed_over (set_first m l (some x)) l src x xs (update-eq m.first l (some x)) ne
      (m.last_link src) h.ending h.chain.1 h.distinct)
