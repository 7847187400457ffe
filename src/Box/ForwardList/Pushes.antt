-- ===== src/Box/ForwardList/Pushes.antt =====
-- What Append, Prepend, Insert and PopFirst of one item do to their list, and to the others.
use serverbox.Prelude.{
  ℕ, ◌≡◌, refl, ◌≢◌, Option, none, some, List, [], ◌∷◌, ◌++◌, arith, Option-cases, inl, inr,
}
use serverbox.Box.Links.{
  update, update-ne, update-eq, sym_ne, Seg-extend, NotIn, Disjoint, last, Seg-frame,
  Distinct-append, Disjoint-cons, Disjoint-nil, NotIn-last, Disjoint-last, last-append,
}
use serverbox.Box.ForwardList.{
  first_of, link_of, Mem, set_first, set_last, set_link, set_last_if_empty, append, prepend,
  pop_first,
}
use serverbox.Box.ForwardList.Represent.{Holds}

pub append-Holds :
    (m : Mem) (l item : ℕ) (xs : List ℕ)
    → Holds m l xs
    → NotIn item xs
    → Holds (append m l item) l (xs ++ item ∷ [])
unfolding append
append-Holds m l item [] h n =
    rw h.ending (record { chain = ground arith; ending = ground arith; distinct = (tt, tt) })
append-Holds m l item (x ∷ xs) h n = rw h.ending (record {
  chain =
      Seg-extend (update m.link item none) (m.first l) x xs none (some item) (item ∷ []) h.distinct
        (Seg-frame m.link item none (m.first l) (x ∷ xs) none n h.chain) (refl, ground arith)
        (sym_ne _ _ (NotIn-last item x xs n), tt);
  ending = rw (last-append x xs item []) (ground arith);
  distinct =
      Distinct-append (x ∷ xs) (item ∷ []) h.distinct (tt, tt)
        (Disjoint-cons item (x ∷ xs) [] n (Disjoint-nil (x ∷ xs)));
})

pub append-Holds_other :
    (m : Mem) (l item k : ℕ) (xs ys : List ℕ)
    → Holds m l xs
    → Holds m k ys
    → k ≢ l
    → Disjoint xs ys
    → NotIn item ys
    → Holds (append m l item) k ys
unfolding append
append-Holds_other m l item k [] ys h g ne j n = rw h.ending (record {
  chain =
      rw (update-ne m.first l (some item) k ne) (Seg-frame m.link item none _ ys none n g.chain);
  ending = rw (update-ne m.last_link l (link_of item) k ne) g.ending;
  distinct = g.distinct;
})
append-Holds_other m l item k (x ∷ xs) ys h g ne j n = rw h.ending (record {
  chain =
      Seg-frame (update m.link item none) (last x xs) (some item) (m.first k) ys none
        (Disjoint-last x xs ys j) (Seg-frame m.link item none _ ys none n g.chain);
  ending = rw (update-ne m.last_link l (link_of item) k ne) g.ending;
  distinct = g.distinct;
})

prepend_empty :
    (m : Mem) (l item : ℕ)
    → m.first l ≡ none
    → prepend m l item ≡ set_first (set_last (set_link m item none) l (link_of item)) l (some item)
unfolding prepend
prepend_empty m l item e = rw (e, set_last_if_empty) (rw (e))

prepend_nonempty :
    (m : Mem) (l item f : ℕ)
    → m.first l ≡ some f
    → prepend m l item ≡ set_first (set_link m item (some f)) l (some item)
unfolding prepend
prepend_nonempty m l item f e = rw (e, set_last_if_empty) (rw e)

pub prepend-Holds :
    (m : Mem) (l item : ℕ) (xs : List ℕ)
    → Holds m l xs
    → NotIn item xs
    → Holds (prepend m l item) l (item ∷ xs)
prepend-Holds m l item [] h n =
    rw (prepend_empty m l item h.chain)
      (record { chain = ground arith; ending = ground arith; distinct = (tt, tt) })
prepend-Holds m l item (x ∷ xs) h n = rw (prepend_nonempty m l item x h.chain.0) (record {
  chain = (
    update-eq m.first l (some item),
    (
      update-eq m.link item (some x),
      Seg-frame m.link item (some x) _ xs none n.1
          (rw (update-ne m.link item (some x) x (sym_ne _ _ n.0)) h.chain.1),
    ),
  );
  ending = h.ending;
  distinct = (n, h.distinct);
})

pub prepend-Holds_other :
    (m : Mem) (l item k : ℕ) (ys : List ℕ)
    → Holds m k ys
    → k ≢ l
    → NotIn item ys
    → Holds (prepend m l item) k ys
prepend-Holds_other m l item k ys g ne n = elim (Option-cases (m.first l)) [
  | inl e ↦ rw (prepend_empty m l item e) (record {
    chain =
        rw (update-ne m.first l (some item) k ne)
          (Seg-frame m.link item none (m.first k) ys none n g.chain);
    ending = rw (update-ne m.last_link l (link_of item) k ne) g.ending;
    distinct = g.distinct;
  })
  | inr (f, e) ↦ rw (prepend_nonempty m l item f e) (record {
    chain =
        rw (update-ne m.first l (some item) k ne)
          (Seg-frame m.link item (some f) (m.first k) ys none n g.chain);
    ending = g.ending;
    distinct = g.distinct;
  })
]

-- the memory after PopFirst of `x`, when `next` is behind it
abbrev popped : Mem → ℕ → Option ℕ → Mem
popped m l none = set_last (set_first m l none) l (first_of l)
popped m l (some y) = set_first m l (some y)

pop_first_lem :
    (m : Mem) (l x : ℕ) (next : Option ℕ)
    → m.first l ≡ some x
    → m.link x ≡ next
    → pop_first m l ≡ some (x, popped m l next)
unfolding pop_first
pop_first_lem m l x none e f = ground arith
pop_first_lem m l x (some y) e f = ground arith

-- PopFirst of a list with items
pub pop_first-Holds :
    (m : Mem) (l x : ℕ) (xs : List ℕ)
    → Holds m l (x ∷ xs)
    → (m' : Mem) × (pop_first m l ≡ some (x, m')) × Holds m' l xs
pop_first-Holds m l x [] h = (
  popped m l none,
  pop_first_lem m l x none h.chain.0 h.chain.1,
  record { chain = ground arith; ending = ground arith; distinct = tt },
)
pop_first-Holds m l x (y ∷ ys) h = (
  popped m l (some y),
  pop_first_lem m l x (some y) h.chain.0 h.chain.1.0,
  record {
    chain = (update-eq m.first l (some y), h.chain.1.1);
    ending = h.ending;
    distinct = h.distinct.1;
  },
)

popped-Holds_other :
    (m : Mem) (l k : ℕ) (next : Option ℕ) (ys : List ℕ)
    → Holds m k ys
    → k ≢ l
    → Holds (popped m l next) k ys
popped-Holds_other m l k none ys g ne = record {
  chain = rw (update-ne m.first l none k ne) g.chain;
  ending = rw (update-ne m.last_link l (first_of l) k ne) g.ending;
  distinct = g.distinct;
}
popped-Holds_other m l k (some y) ys g ne = record {
  chain = rw (update-ne m.first l (some y) k ne) g.chain;
  ending = g.ending;
  distinct = g.distinct;
}

pub pop_first-Holds_other :
    (m m' : Mem) (l k x y : ℕ) (ys : List ℕ)
    → m.first l ≡ some x
    → pop_first m l ≡ some (y, m')
    → Holds m k ys
    → k ≢ l
    → Holds m' k ys
pop_first-Holds_other m m' l k x y ys f e g ne =
    let same : popped m l (m.link x) ≡ m' = cc (pop_first_lem m l x (m.link x) f refl) in
    rw (← same) (popped-Holds_other m l k (m.link x) ys g ne)

-- Append, in a memory with two lists that share no items: the item goes to the end of the one, and
-- the other one stays as it is.
pub append_correct :
    (m : Mem) (l item k : ℕ) (xs ys : List ℕ)
    → Holds m l xs
    → Holds m k ys
    → k ≢ l
    → Disjoint xs ys
    → NotIn item xs
    → NotIn item ys
    → Holds (append m l item) l (xs ++ item ∷ []) × Holds (append m l item) k ys
append_correct m l item k xs ys h g ne j n o =
    (append-Holds m l item xs h n, append-Holds_other m l item k xs ys h g ne j o)

-- Prepend, likewise: the item goes to the front of the one list, and the other one stays as it is.
pub prepend_correct :
    (m : Mem) (l item k : ℕ) (xs ys : List ℕ)
    → Holds m l xs
    → Holds m k ys
    → k ≢ l
    → NotIn item xs
    → NotIn item ys
    → Holds (prepend m l item) l (item ∷ xs) × Holds (prepend m l item) k ys
prepend_correct m l item k xs ys h g ne n o =
    (prepend-Holds m l item xs h n, prepend-Holds_other m l item k ys g ne o)

-- PopFirst of a list with items takes off the first one, and leaves any other list as it is.
pub pop_first_correct :
    (m : Mem) (l k x : ℕ) (xs ys : List ℕ)
    → Holds m l (x ∷ xs)
    → Holds m k ys
    → k ≢ l
    → (m' : Mem) × (pop_first m l ≡ some (x, m')) × Holds m' l xs × Holds m' k ys
pop_first_correct m l k x xs ys h g ne =
    let (m', e, h') = pop_first-Holds m l x xs h in
    (m', e, h', pop_first-Holds_other m m' l k x x ys h.chain.0 e g ne)
