-- ===== src/Box/ForwardList/Inserts.antt =====
-- What Insert behind an item of the list does.
use serverbox.Prelude.{
  ℕ, ◌≡◌, refl, sym, ap, ◌≢◌, Option, none, some, List, [], ◌∷◌, ◌++◌, ◌∙◌, arith,
}
use serverbox.Box.Links.{
  update, update-ne, update-eq, sym_ne, Seg, NotIn, Distinct, last, Seg-frame, last-append,
}
use serverbox.Box.ForwardList.{link_of, Mem, set_last, insert}
use serverbox.Box.ForwardList.Represent.{last_loc, Holds}

-- the link fields with `item` written behind `p`
abbrev relinked : (ℕ → Option ℕ) → ℕ → ℕ → ℕ → Option ℕ
relinked link p item = update (update link item (link p)) p (some item)

NotIn-middle :
    (x : ℕ) (before : List ℕ) (p : ℕ) (behind : List ℕ) → NotIn x (before ++ p ∷ behind) → x ≢ p
NotIn-middle x [] p behind n = n.0
NotIn-middle x (y ∷ before) p behind n = NotIn-middle x before p behind n.1

relinked_ne :
    (link : ℕ → Option ℕ) (p item q : ℕ) → q ≢ p → q ≢ item → relinked link p item q ≡ link q
relinked_ne link p item q np ni =
    update-ne (update link item (link p)) p (some item) q np ∙ update-ne link item (link p) q ni

Seg-insert :
    (link : ℕ → Option ℕ) (o : Option ℕ) (before : List ℕ) (p item : ℕ) (behind : List ℕ)
    → Distinct (before ++ p ∷ behind)
    → NotIn item (before ++ p ∷ behind)
    → Seg link o (before ++ p ∷ behind) none
    → Seg (relinked link p item) o (before ++ p ∷ item ∷ behind) none
Seg-insert link o [] p item behind d n s = (
  s.0,
  (
    update-eq (update link item (link p)) p (some item),
    rw (update-ne (update link item (link p)) p (some item) item n.0, update-eq link item (link p))
        (Seg-frame _ p (some item) (link p) behind none d.0
          (Seg-frame link item (link p) (link p) behind none n.1 s.1)),
  ),
)
Seg-insert link o (x ∷ before) p item behind d n s = (
  s.0,
  rw (relinked_ne link p item x (NotIn-middle x before p behind d.0) (sym_ne _ _ n.0))
      (Seg-insert link (link x) before p item behind d.1 n.1 s.1),
)

last_loc-append :
    (l : ℕ) (before : List ℕ) (p : ℕ) (behind : List ℕ)
    → last_loc l (before ++ p ∷ behind) ≡ link_of (last p behind)
last_loc-append l [] p behind = refl
last_loc-append l (x ∷ before) p behind = ap link_of (last-append x before p behind)

-- the link of an item in a chain
Seg-link :
    (link : ℕ → Option ℕ) (o : Option ℕ) (before : List ℕ) (p : ℕ) (behind : List ℕ)
    → Seg link o (before ++ p ∷ behind) none
    → Seg link (link p) behind none
Seg-link link o [] p behind s = s.1
Seg-link link o (x ∷ before) p behind s = Seg-link link (link x) before p behind s.1

NotIn-insert :
    (q : ℕ) (before : List ℕ) (p item : ℕ) (behind : List ℕ)
    → q ≢ item
    → NotIn q (before ++ p ∷ behind)
    → NotIn q (before ++ p ∷ item ∷ behind)
NotIn-insert q [] p item behind ne n = (n.0, (ne, n.1))
NotIn-insert q (x ∷ before) p item behind ne n = (n.0, NotIn-insert q before p item behind ne n.1)

Distinct-insert :
    (before : List ℕ) (p item : ℕ) (behind : List ℕ)
    → Distinct (before ++ p ∷ behind)
    → NotIn item (before ++ p ∷ behind)
    → Distinct (before ++ p ∷ item ∷ behind)
Distinct-insert [] p item behind d n = ((sym_ne _ _ n.0, d.0), (n.1, d.1))
Distinct-insert (x ∷ before) p item behind d n = (
  NotIn-insert x before p item behind (sym_ne _ _ n.0) d.0,
  Distinct-insert before p item behind d.1 n.1,
)

insert_last :
    (m : Mem) (l p item : ℕ)
    → item ≢ p
    → m.link p ≡ none
    → insert m l (some p) item
      ≡ set_last (record m { link = relinked m.link p item }) l (link_of item)
unfolding insert
insert_last m l p item ne e = ground (arith, ne, e)

insert_inner :
    (m : Mem) (l p item q : ℕ)
    → item ≢ p
    → m.link p ≡ some q
    → insert m l (some p) item ≡ record m { link = relinked m.link p item }
unfolding insert
insert_inner m l p item q ne e = ground (arith, ne, e)

-- Insert of an item behind one of the list
pub insert-Holds :
    (m : Mem) (l : ℕ) (before : List ℕ) (p item : ℕ) (behind : List ℕ)
    → Holds m l (before ++ p ∷ behind)
    → NotIn item (before ++ p ∷ behind)
    → Holds (insert m l (some p) item) l (before ++ p ∷ item ∷ behind)
insert-Holds m l before p item [] h n =
    rw
      (insert_last m l p item (NotIn-middle item before p [] n)
        (Seg-link m.link (m.first l) before p [] h.chain))
      (record {
        chain = Seg-insert m.link (m.first l) before p item [] h.distinct n h.chain;
        ending =
            update-eq m.last_link l (link_of item) ∙ sym (last_loc-append l before p (item ∷ []));
        distinct = Distinct-insert before p item [] h.distinct n;
      })
insert-Holds m l before p item (q ∷ behind) h n =
    rw
      (insert_inner m l p item q (NotIn-middle item before p (q ∷ behind) n)
        (Seg-link m.link (m.first l) before p (q ∷ behind) h.chain).0)
      (record {
        chain = Seg-insert m.link (m.first l) before p item (q ∷ behind) h.distinct n h.chain;
        ending =
            h.ending
            ∙ last_loc-append l before p (q ∷ behind)
            ∙ sym (last_loc-append l before p (item ∷ q ∷ behind));
        distinct = Distinct-insert before p item (q ∷ behind) h.distinct n;
      })
