-- ===== src/Box/Links.antt =====
-- Chains of intrusive links. A pointer is a number, a null pointer is `none`, and the link fields
-- of all the objects are one function. Shared by the lists and queues that thread a link through
-- their items (src/mg/box/ForwardList.h, src/mg/box/MultiProducerQueueIntrusive.h).
use serverbox.Prelude.{
  ℕ, ◌≡◌, refl, sym, ◌≢◌, Option, none, some, List, [], ◌∷◌, ◌++◌, arith, ◌==◌, if◌then◌else◌,
}

-- A write to one place of a memory.
abbrev pub update {ℓ} : {Value : Type ℓ} (memory : ℕ → Value) (place : ℕ) (v : Value) → ℕ → Value
update memory place v = λ q. if place == q then v else memory q

pub update-ne {ℓ} : {A : Type ℓ} (f : ℕ → A) (i : ℕ) (a : A) (j : ℕ) → j ≢ i → update f i a j ≡ f j
update-ne f i a j ne = ground (arith, ne)

pub update-eq {ℓ} : {A : Type ℓ} (f : ℕ → A) (i : ℕ) (a : A) → update f i a i ≡ a
update-eq f i a = ground arith

pub sym_ne : (a b : ℕ) → a ≢ b → b ≢ a
sym_ne a b ne = λ e. ne (sym e)

-- The items `xs` are linked one to the next, from the pointer `o` up to the pointer `e`.
abbrev pub Seg : (ℕ → Option ℕ) → Option ℕ → List ℕ → Option ℕ → Type 0
Seg link o [] e = o ≡ e
Seg link o (x ∷ xs) e = (o ≡ some x) × Seg link (link x) xs e

abbrev pub NotIn : ℕ → List ℕ → Type 0
NotIn p [] = Unit
NotIn p (x ∷ xs) = (p ≢ x) × NotIn p xs

abbrev pub Distinct : List ℕ → Type 0
Distinct [] = Unit
Distinct (x ∷ xs) = NotIn x xs × Distinct xs

abbrev pub Disjoint : List ℕ → List ℕ → Type 0
Disjoint [] ys = Unit
Disjoint (x ∷ xs) ys = NotIn x ys × Disjoint xs ys

-- The last of the items `x ∷ xs`.
abbrev pub last : ℕ → List ℕ → ℕ
last x [] = x
last x (y ∷ ys) = last y ys

pub Seg-frame :
    (link : ℕ → Option ℕ) (p : ℕ) (v o : Option ℕ) (xs : List ℕ) (e : Option ℕ)
    → NotIn p xs
    → Seg link o xs e
    → Seg (update link p v) o xs e
Seg-frame link p v o [] e n s = s
Seg-frame link p v o (x ∷ xs) e n s = ground (arith, Seg-frame link p v (link x) xs e n.1 s.1)

pub Seg-join :
    (link : ℕ → Option ℕ) (o : Option ℕ) (xs : List ℕ) (m : Option ℕ) (ys : List ℕ) (e : Option ℕ)
    → Seg link o xs m
    → Seg link m ys e
    → Seg link o (xs ++ ys) e
Seg-join link o [] m ys e s t = rw s t
Seg-join link o (x ∷ xs) m ys e s t = (s.0, Seg-join link (link x) xs m ys e s.1 t)

-- A write to the link of the last item moves the end of the chain.
pub Seg-redirect :
    (link : ℕ → Option ℕ) (o : Option ℕ) (x : ℕ) (xs : List ℕ) (e v : Option ℕ)
    → Distinct (x ∷ xs)
    → Seg link o (x ∷ xs) e
    → Seg (update link (last x xs) v) o (x ∷ xs) v
Seg-redirect link o x [] e v d s = (s.0, ground arith)
Seg-redirect link o x (y ∷ ys) e v d s =
    let rest = Seg-redirect link (link x) y ys e v d.1 s.1 in
    (s.0, ground (arith, rest, last_ne x y ys d.0))
  where
    last_ne : (p q : ℕ) (qs : List ℕ) → NotIn p (q ∷ qs) → p ≢ last q qs
    last_ne p q [] n = n.0
    last_ne p q (r ∷ rs) n = last_ne p r rs n.1

pub NotIn-append : (p : ℕ) (xs ys : List ℕ) → NotIn p xs → NotIn p ys → NotIn p (xs ++ ys)
NotIn-append p [] ys n k = k
NotIn-append p (x ∷ xs) ys n k = (n.0, NotIn-append p xs ys n.1 k)

pub Distinct-append :
    (xs ys : List ℕ) → Distinct xs → Distinct ys → Disjoint xs ys → Distinct (xs ++ ys)
Distinct-append [] ys d e j = e
Distinct-append (x ∷ xs) ys d e j = (NotIn-append x xs ys d.0 j.0, Distinct-append xs ys d.1 e j.1)

pub Disjoint-cons : (p : ℕ) (xs ys : List ℕ) → NotIn p xs → Disjoint xs ys → Disjoint xs (p ∷ ys)
Disjoint-cons p [] ys n j = tt
Disjoint-cons p (x ∷ xs) ys n j = ((ground (arith, n.0), j.0), Disjoint-cons p xs ys n.1 j.1)

pub Disjoint-nil : (xs : List ℕ) → Disjoint xs []
Disjoint-nil [] = tt
Disjoint-nil (x ∷ xs) = (tt, Disjoint-nil xs)

pub NotIn-last : (p x : ℕ) (xs : List ℕ) → NotIn p (x ∷ xs) → p ≢ last x xs
NotIn-last p x [] n = n.0
NotIn-last p x (y ∷ ys) n = NotIn-last p y ys n.1

-- The last item of one of two disjoint lists is not in the other.
pub Disjoint-last : (x : ℕ) (xs ys : List ℕ) → Disjoint (x ∷ xs) ys → NotIn (last x xs) ys
Disjoint-last x [] ys j = j.0
Disjoint-last x (y ∷ xs) ys j = Disjoint-last y xs ys j.1

pub last-append : (x : ℕ) (xs : List ℕ) (y : ℕ) (ys : List ℕ) → last x (xs ++ y ∷ ys) ≡ last y ys
last-append x [] y ys = refl
last-append x (z ∷ xs) y ys = last-append z xs y ys

-- A chain is extended by writing the start of the next one into the link of its last item.
pub Seg-extend :
    (link : ℕ → Option ℕ) (o : Option ℕ) (x : ℕ) (xs : List ℕ) (e v : Option ℕ) (ys : List ℕ)
    → Distinct (x ∷ xs)
    → Seg link o (x ∷ xs) e
    → Seg link v ys none
    → NotIn (last x xs) ys
    → Seg (update link (last x xs) v) o ((x ∷ xs) ++ ys) none
Seg-extend link o x xs e v ys d s t n =
    Seg-join _ o (x ∷ xs) v ys none (Seg-redirect link o x xs e v d s)
      (Seg-frame link (last x xs) v v ys none n t)

pub Disjoint-last_right :
    (xs : List ℕ) (y : ℕ) (ys : List ℕ) → Disjoint xs (y ∷ ys) → NotIn (last y ys) xs
Disjoint-last_right [] y ys j = tt
Disjoint-last_right (x ∷ xs) y ys j =
    (sym_ne _ _ (NotIn-last x y ys j.0), Disjoint-last_right xs y ys j.1)

-- Two chains are joined by a write to the last link of the first one, and the joint chain is ended
-- by a write to its last link.
pub Seg-splice :
    (link : ℕ → Option ℕ) (o : Option ℕ) (x : ℕ) (xs : List ℕ) (e f v : Option ℕ) (y : ℕ)
    (ys : List ℕ)
    → Distinct (x ∷ xs)
    → Distinct (y ∷ ys)
    → Disjoint (x ∷ xs) (y ∷ ys)
    → Seg link o (x ∷ xs) e
    → Seg link (some y) (y ∷ ys) f
    → Seg (update (update link (last x xs) (some y)) (last y ys) v) o ((x ∷ xs) ++ y ∷ ys) v
Seg-splice link o x xs e f v y ys d k j s t =
    Seg-join _ o (x ∷ xs) (some y) (y ∷ ys) v
      (Seg-frame _ (last y ys) v o (x ∷ xs) (some y) (Disjoint-last_right (x ∷ xs) y ys j)
        (Seg-redirect link o x xs e (some y) d s))
      (Seg-redirect _ (some y) y ys f v k
        (Seg-frame link (last x xs) (some y) (some y) (y ∷ ys) f (Disjoint-last x xs (y ∷ ys) j) t))
