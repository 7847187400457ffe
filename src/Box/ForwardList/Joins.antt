-- ===== src/Box/ForwardList/Joins.antt =====
-- What the operations that join a range or a list to a list do: Append and Prepend of another list,
-- Prepend of a range, and Insert.
use mathlib.Core.List.{append-nil}
use serverbox.Prelude.{
  ℕ, ◌≡◌, refl, sym, ap, ◌≢◌, Option, none, some, List, [], ◌∷◌, ◌++◌, ◌∙◌, arith,
}
use serverbox.Box.Links.{
  update-eq, Seg, Distinct, Disjoint, last, Seg-redirect, Seg-extend, Distinct-append,
  Disjoint-last, last-append,
}
use serverbox.Box.ForwardList.{
  link_of, Mem, set_first, set_last, set_link, store, set_last_if_empty, clear, prepend_range,
  prepend_list, append_list,
}
use serverbox.Box.ForwardList.Represent.{Holds, clear-Holds, clear-Holds_other}
use serverbox.Box.ForwardList.Splices.{handed_over}

append_list_lem :
    (m : Mem) (l src y : ℕ)
    → m.first src ≡ some y
    → append_list m l src
      ≡ clear
          (set_last
            (store m (m.last_link l) (some y))
            l
            ((store m (m.last_link l) (some y)).last_link src))
          src
unfolding append_list
append_list_lem m l src y e = rw (e, append_list) refl

append_list_empty : (m : Mem) (l src : ℕ) → m.first src ≡ none → append_list m l src ≡ m
unfolding append_list
append_list_empty m l src e = rw (e, append_list) refl

-- Append of another list: its items go behind, and it is left empty.
pub append_list-Holds :
    (m : Mem) (l src : ℕ) (xs ys : List ℕ)
    → l ≢ src
    → Holds m l xs
    → Holds m src ys
    → Disjoint xs ys
    → Holds (append_list m l src) l (xs ++ ys) × Holds (append_list m l src) src []
append_list-Holds m l src xs [] ne h g j =
    rw (append-nil xs, append_list_empty m l src g.chain) (h, g)
append_list-Holds m l src [] (y ∷ ys) ne h g j =
    rw (append_list_lem m l src y g.chain.0, h.ending)
      (handed_over (set_first m l (some y)) l src y ys (update-eq m.first l (some y)) ne
        (m.last_link src) g.ending g.chain.1 g.distinct)
append_list-Holds m l src (x ∷ xs) (y ∷ ys) ne h g j =
    rw (append_list_lem m l src y g.chain.0, h.ending)
      (handed_over (set_link m (last x xs) (some y)) l src x (xs ++ y ∷ ys) h.chain.0 ne
        (m.last_link src) (g.ending ∙ ap link_of (sym (last-append x xs y ys)))
        (Seg-extend m.link (m.first l) x xs none (some y) (y ∷ ys) h.distinct h.chain
          (refl, g.chain.1) (Disjoint-last x xs (y ∷ ys) j)).1
        (Distinct-append (x ∷ xs) (y ∷ ys) h.distinct g.distinct j))

-- the items `y ∷ ys` in front of the list `l`
abbrev prefixed : Mem → ℕ → ℕ → ℕ → Mem
prefixed m l a_first a_last =
    set_first (set_last_if_empty (set_link m a_last (m.first l)) l (link_of a_last)) l
      (some a_first)

prefixed-Holds :
    (m : Mem) (l : ℕ) (xs : List ℕ) (y : ℕ) (ys : List ℕ) (e : Option ℕ)
    → Holds m l xs
    → Seg m.link (some y) (y ∷ ys) e
    → Distinct (y ∷ ys)
    → Disjoint (y ∷ ys) xs
    → Holds (prefixed m l y (last y ys)) l ((y ∷ ys) ++ xs)
prefixed-Holds m l [] y ys e h s d j =
    rw (append-nil (y ∷ ys), prefixed_empty)
      (record {
        chain = rw (update-eq m.first l (some y)) (Seg-redirect m.link (some y) y ys e none d s);
        ending = update-eq m.last_link l (link_of (last y ys));
        distinct = d;
      })
  where
    prefixed_empty :
        prefixed m l y (last y ys)
        ≡ set_first (set_last (set_link m (last y ys) none) l (link_of (last y ys))) l (some y)
    prefixed_empty = ground (arith, h.chain)
prefixed-Holds m l (x ∷ xs) y ys e h s d j = rw prefixed_nonempty (record {
  chain = rw (update-eq m.first l (some y)) (
      Seg-extend m.link (some y) y ys e (some x) (x ∷ xs) d s (refl, h.chain.1)
        (Disjoint-last y ys (x ∷ xs) j));
  ending = h.ending ∙ ap link_of (sym (last-append y ys x xs));
  distinct = Distinct-append (y ∷ ys) (x ∷ xs) d h.distinct j;
})
  where
    prefixed_nonempty :
        prefixed m l y (last y ys) ≡ set_first (set_link m (last y ys) (some x)) l (some y)
    prefixed_nonempty = ground (arith, h.chain.0)

-- Prepend of a range, whose items are chained up to the last, whatever its own link holds
pub prepend_range-Holds :
    (m : Mem) (l : ℕ) (xs : List ℕ) (y : ℕ) (ys : List ℕ) (e : Option ℕ)
    → Holds m l xs
    → Seg m.link (some y) (y ∷ ys) e
    → Distinct (y ∷ ys)
    → Disjoint (y ∷ ys) xs
    → (m' : Mem) × (prepend_range m l (some y) (some (last y ys)) ≡ some m')
      × Holds m' l ((y ∷ ys) ++ xs)
unfolding prepend_range
prepend_range-Holds m l xs y ys e h s d j =
    (prefixed m l y (last y ys), refl, prefixed-Holds m l xs y ys e h s d j)

-- Prepend of another list: its items go in front, and it is left empty.
pub prepend_list-Holds :
    (m : Mem) (l src : ℕ) (xs : List ℕ) (y : ℕ) (ys : List ℕ)
    → l ≢ src
    → Holds m l xs
    → Holds m src (y ∷ ys)
    → Disjoint (y ∷ ys) xs
    → (m' : Mem) × (prepend_list m l src ≡ some m') × Holds m' l ((y ∷ ys) ++ xs) × Holds m' src []
unfolding prepend_list
prepend_list-Holds m l src xs y ys ne h g j = (
  clear (prefixed m l y (last y ys)) src,
  rw (g.chain.0, prepend_list, g.ending) refl,
  clear-Holds_other _ src l _ ne (prefixed-Holds m l xs y ys none h (refl, g.chain.1) g.distinct j),
  clear-Holds _ src,
)
