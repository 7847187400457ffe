-- ===== src/Box/InterruptibleMutex/Owners.antt =====
-- Who owns the mutex, and the steps in TryLock() and Unlock().
use serverbox.Prelude.{
  ℕ, suc, ◌+◌, ◌-◌, ◌<◌, ◌≡◌, refl, subst, ◌⊎◌, inl, inr, Bool, true, false, ◌&&◌, not, Option,
  some, List, [], ◌∷◌, arith,
}
use serverbox.Box.InterruptibleMutex.{
  Place, Mutex, is_empty, try_lock, unlock, return_owner, act, free, arrived, found_free,
  found_taken, handing, popped, updated, done, tries, unlocks, returns, locks_inner, hands_over,
}

-- whether the owner of the inner mutex owns the mutex
abbrev pub inside : Place → ℕ
inside handing = 1
inside (popped t) = 1
inside (updated t) = 1
inside p = 0

-- The threads that own the mutex
abbrev pub owners : Mutex → ℕ
owners w = w.holding + w.leaving + w.given + inside w.place

abbrev pub count : Bool → ℕ
count true = 1
count false = 0

-- the flag of the waiters tells whether there are any, and then there is an owner
abbrev pub Settled : Bool → Bool → List ℕ → Type 0
Settled t f ws = (f ≡ not (is_empty ws)) × ((f && not t) ≡ false)

-- the flags, where the owner of the inner mutex is
abbrev pub FlagsAt : Place → Bool → Bool → List ℕ → Type 0
FlagsAt found_free t f ws = (t ≡ false) × (f ≡ true) × (ws ≡ [])
FlagsAt (found_taken x) t f ws = (t ≡ true) × (f ≡ true)
FlagsAt handing t f ws = (t ≡ true) × (f ≡ true) × (is_empty ws ≡ false)
FlagsAt (popped x) t f ws = (t ≡ true) × (f ≡ true)
FlagsAt p t f ws = Settled t f ws

pub record IsExclusive (w : Mutex) : Type 0 where
  pub counted : owners w ≡ count w.taken
  pub flags : FlagsAt w.place w.taken w.has_waiters w.waiters
  pub told : (w.has_waiters ≡ true) ⊎ (w.leaving ≡ 0)

-- A step that fails no assertion, and keeps the mutex with its owner
abbrev pub Kept : Option Mutex → Type 0
Kept r = (w : Mutex) × (r ≡ some w) × IsExclusive w

pub kept :
    (t f : Bool) (ws : List ℕ) (p : Place) (h l g n : ℕ)
    → (h + l + g + inside p ≡ count t)
    → FlagsAt p t f ws
    → (f ≡ true) ⊎ (l ≡ 0)
    → Kept (
        some (record {
          taken = t;
          has_waiters = f;
          waiters = ws;
          place = p;
          holding = h;
          leaving = l;
          given = g;
          wakeups = n;
        }))
kept t f ws p h l g n c k o = (_, refl, record { counted = c; flags = k; told = o })

abbrev pub mutex : Bool → Bool → List ℕ → Place → ℕ → ℕ → ℕ → ℕ → Mutex
mutex t f ws p h l g n = record {
  taken = t;
  has_waiters = f;
  waiters = ws;
  place = p;
  holding = h;
  leaving = l;
  given = g;
  wakeups = n;
}

-- the mutex may be taken or given back where nobody waits
untaken : (p : Place) (t t' : Bool) (ws : List ℕ) → FlagsAt p t false ws → FlagsAt p t' false ws
untaken free t t' ws k = (k.0, refl)
untaken (arrived x) t t' ws k = (k.0, refl)
untaken found_free t t' ws k = absurd (ground (arith, k.1))
untaken (found_taken x) t t' ws k = absurd (ground (arith, k.1))
untaken handing t t' ws k = absurd (ground (arith, k.1))
untaken (popped x) t t' ws k = absurd (ground (arith, k.1))
untaken (updated x) t t' ws k = (k.0, refl)
untaken done t t' ws k = (k.0, refl)

pub try_lock-Kept :
    (t f : Bool) (ws : List ℕ) (p : Place) (h l g n : ℕ)
    → IsExclusive (mutex t f ws p h l g n)
    → Kept (act tries (mutex t f ws p h l g n))
unfolding act try_lock
try_lock-Kept true f ws p h l g n i = (_, refl, i)
try_lock-Kept false true ws p h l g n i = (_, refl, i)
try_lock-Kept false false ws p h l g n i =
    let c = i.counted in
    kept true false ws p (suc h) l g n (omega (arith, c)) (untaken p false true ws i.flags)
      (inr (omega (arith, c)))

pub unlock-Kept :
    (t f : Bool) (ws : List ℕ) (p : Place) (h l g n : ℕ)
    → IsExclusive (mutex t f ws p h l g n)
    → 0 < h
    → Kept (act unlocks (mutex t f ws p h l g n))
unfolding act unlock
unlock-Kept true false ws p h l g n i y =
    let c = i.counted in
    kept false false ws p (h - 1) l g n (omega (arith, c)) (untaken p true false ws i.flags)
      (inr (omega (arith, c)))
unlock-Kept true true ws p h l g n i y =
    let c = i.counted in
    kept true true ws p (h - 1) (suc l) g n (omega (arith, c)) i.flags (inl refl)
unlock-Kept false f ws p h l g n i y = let c = i.counted in absurd (omega (arith, c))

pub return_owner-Kept :
    (t f : Bool) (ws : List ℕ) (p : Place) (h l g n : ℕ)
    → IsExclusive (mutex t f ws p h l g n)
    → 0 < g
    → Kept (act returns (mutex t f ws p h l g n))
unfolding act return_owner
return_owner-Kept true f ws p h l g n i y =
    let c = i.counted in kept true f ws p (suc h) l (g - 1) n (omega (arith, c)) i.flags i.told
return_owner-Kept false f ws p h l g n i y = let c = i.counted in absurd (omega (arith, c))

pub locks_inner-Kept :
    (x : ℕ) (w : Mutex) → IsExclusive w → w.place ≡ free → Kept (act (locks_inner x) w)
unfolding act
locks_inner-Kept x w i e =
    kept w.taken w.has_waiters w.waiters (arrived x) w.holding w.leaving w.given w.wakeups
      (subst (λ k. (w.holding + w.leaving + w.given + inside k) ≡ count w.taken) e i.counted)
      (subst (λ k. FlagsAt k w.taken w.has_waiters w.waiters) e i.flags) i.told

pub hands_over-Kept :
    (t f : Bool) (ws : List ℕ) (h l g n : ℕ)
    → IsExclusive (mutex t f ws free h l g n)
    → 0 < l
    → Kept (act hands_over (mutex t f ws free h l g n))
unfolding act is_empty
hands_over-Kept false f ws h l g n i y = let c = i.counted in absurd (omega (arith, c))
hands_over-Kept true f [] h l g n i y = elim i.told [
  | inl e ↦ absurd (ground (arith, e, i.flags.0))
  | inr e ↦ absurd (omega (arith, e))
]
hands_over-Kept true f (x ∷ ws) h l g n i y =
    let c = i.counted in
    kept true f (x ∷ ws) handing h (l - 1) g n (omega (arith, c)) (refl, i.flags.0, refl)
      (inl i.flags.0)
