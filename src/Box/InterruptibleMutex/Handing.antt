-- ===== src/Box/InterruptibleMutex/Handing.antt =====
-- The steps under the inner mutex.
use serverbox.Prelude.{
  ℕ, suc, ◌≡◌, refl, sym, ap, ◌∙◌, inl, inr, Bool, true, false, ◌&&◌, not, List, [], ◌∷◌, ◌++◌,
  arith, if◌then◌else◌,
}
use serverbox.Box.InterruptibleMutex.{
  Place, is_empty, pop_waiter, advance_at, free, arrived, found_free, found_taken, handing, popped,
  updated, done,
}
use serverbox.Box.InterruptibleMutex.Owners.{IsExclusive, Kept, kept, mutex}

owned : (f t : Bool) → t ≡ true → (f && not t) ≡ false
owned f false e = absurd (ground (arith, e))
owned true true e = refl
owned false true e = refl

not_empty : (ws : List ℕ) (x : ℕ) → is_empty (ws ++ (x ∷ [])) ≡ false
unfolding is_empty
not_empty [] x = refl
not_empty (y ∷ ws) x = refl

arrived-Kept :
    (x : ℕ) (t f : Bool) (ws : List ℕ) (h l g n : ℕ)
    → IsExclusive (mutex t f ws (arrived x) h l g n)
    → Kept (advance_at (arrived x) (mutex t f ws (arrived x) h l g n))
unfolding advance_at is_empty
arrived-Kept x true f ws h l g n i =
    kept true true ws (found_taken x) h l g n i.counted (refl, refl) (inl refl)
arrived-Kept x false f [] h l g n i =
    kept false true [] found_free h l g n i.counted (refl, refl, refl) (inl refl)
arrived-Kept x false true (y ∷ ws) h l g n i = let k = i.flags in absurd (ground (arith, k.1))
arrived-Kept x false false (y ∷ ws) h l g n i = let k = i.flags in absurd (ground (arith, k.0))

found_free-Kept :
    (t f : Bool) (ws : List ℕ) (h l g n : ℕ)
    → IsExclusive (mutex t f ws found_free h l g n)
    → Kept (advance_at found_free (mutex t f ws found_free h l g n))
unfolding advance_at is_empty
found_free-Kept true f ws h l g n i = let k = i.flags in absurd (ground (arith, k.0))
found_free-Kept false false ws h l g n i = let k = i.flags in absurd (ground (arith, k.1))
found_free-Kept false true [] h l g n i =
    let c = i.counted in
    kept true false [] done (suc h) l g n (omega (arith, c)) (refl, refl) (inr (omega (arith, c)))
found_free-Kept false true (y ∷ ws) h l g n i =
    let (a, b, e) = i.flags in let no : false ≡ true = ap is_empty e in absurd (ground (arith, no))

found_taken-Kept :
    (x : ℕ) (t f : Bool) (ws : List ℕ) (h l g n : ℕ)
    → IsExclusive (mutex t f ws (found_taken x) h l g n)
    → Kept (advance_at (found_taken x) (mutex t f ws (found_taken x) h l g n))
unfolding advance_at
found_taken-Kept x t f ws h l g n i =
    let (a, b) = i.flags in
    kept t f (ws ++ (x ∷ [])) done h l g (if is_empty ws then suc n else n) i.counted
      (b ∙ sym (ap not (not_empty ws x)), owned f t a) i.told

handing-Kept :
    (t f : Bool) (ws : List ℕ) (h l g n : ℕ)
    → IsExclusive (mutex t f ws handing h l g n)
    → Kept (advance_at handing (mutex t f ws handing h l g n))
unfolding advance_at pop_waiter is_empty
handing-Kept t f [] h l g n i = let (a, b, e) = i.flags in absurd (ground (arith, e))
handing-Kept t f (x ∷ ws) h l g n i =
    let (a, b, e) = i.flags in kept t f ws (popped x) h l g n i.counted (a, b) (inl b)

popped-Kept :
    (x : ℕ) (t f : Bool) (ws : List ℕ) (h l g n : ℕ)
    → IsExclusive (mutex t f ws (popped x) h l g n)
    → Kept (advance_at (popped x) (mutex t f ws (popped x) h l g n))
unfolding advance_at is_empty
popped-Kept x false f ws h l g n i = let k = i.flags in absurd (ground (arith, k.0))
popped-Kept x true false ws h l g n i = let k = i.flags in absurd (ground (arith, k.1))
popped-Kept x true true [] h l g n i =
    let c = i.counted in
    kept true false [] (updated x) h l g n c (refl, refl) (inr (omega (arith, c)))
popped-Kept x true true (y ∷ ws) h l g n i =
    kept true true (y ∷ ws) (updated x) h l g n i.counted (refl, refl) (inl refl)

updated-Kept :
    (x : ℕ) (t f : Bool) (ws : List ℕ) (h l g n : ℕ)
    → IsExclusive (mutex t f ws (updated x) h l g n)
    → Kept (advance_at (updated x) (mutex t f ws (updated x) h l g n))
unfolding advance_at
updated-Kept x t f ws h l g n i =
    let c = i.counted in kept t f ws done h l (suc g) n (omega (arith, c)) i.flags i.told

pub advance-Kept :
    (t f : Bool) (ws : List ℕ) (p : Place) (h l g n : ℕ)
    → IsExclusive (mutex t f ws p h l g n)
    → Kept (advance_at p (mutex t f ws p h l g n))
unfolding advance_at
advance-Kept t f ws free h l g n i = (_, refl, i)
advance-Kept t f ws (arrived x) h l g n i = arrived-Kept x t f ws h l g n i
advance-Kept t f ws found_free h l g n i = found_free-Kept t f ws h l g n i
advance-Kept t f ws (found_taken x) h l g n i = found_taken-Kept x t f ws h l g n i
advance-Kept t f ws handing h l g n i = handing-Kept t f ws h l g n i
advance-Kept t f ws (popped x) h l g n i = popped-Kept x t f ws h l g n i
advance-Kept t f ws (updated x) h l g n i = updated-Kept x t f ws h l g n i
advance-Kept t f ws done h l g n i = kept t f ws free h l g n i.counted i.flags i.told
