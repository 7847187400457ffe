-- ===== src/Box/IoVec.antt =====
-- src/mg/box/IOVec.cpp, IOVecPropagate(): the step over bytes that have been sent or received. A
-- vector is the list of the bytes that it stands for, the array is the list of its vectors; those that
-- the cursor has passed, which are set to null, are not shown. A read past the last vector is a fault,
-- `none`.
mod Tests
use serverbox.Prelude.{
  ℕ, zero, suc, ◌+◌, ◌-◌, ◌≤◌, ◌<◌, min, ◌≡◌, refl, sym, ap, ◌∙◌, subst, ◌≢◌, ◌⊎◌, inl, inr, Bool,
  true, false, ◌&&◌, ◌||◌, not, Option, none, some, List, [], ◌∷◌, ◌++◌, arith, ltb, leb, ◌==◌,
  if◌then◌else◌, ltb→lt, lt→ltb, leb→le, tests, Bool-cases, Option-cases, ◌>>=◌, length, take, drop,
  replicate, length-append, length-take, length-drop, length-replicate, take-append-drop,
  take-append_short, take-append_long, drop-append_short, drop-append_long, drop-take, take_all,
  drop_all, take-take, take_add, append-nil, append_assoc,
}

-- IOVecPropagate(): the vectors from the cursor on
pub propagate_vectors : List (List ℕ) → ℕ → Option (List (List ℕ))
propagate_vectors vs zero = some vs
propagate_vectors [] (suc n) = none
propagate_vectors (v ∷ vs) (suc n) =
    let rest = propagate_vectors vs (suc n - length v) in
    if ltb (suc n) (length v) then some (drop (suc n) v ∷ vs) else rest

-- All bytes of the vectors
abbrev pub vector_bytes : List (List ℕ) → List ℕ
vector_bytes [] = []
vector_bytes (v ∷ vs) = v ++ vector_bytes vs

-- IOVecPropagate() over no more bytes than the vectors have leaves exactly the bytes behind these,
-- and no more vectors than there were.
pub propagate_vectors_correct :
    (vs : List (List ℕ)) (size : ℕ)
    → size ≤ length (vector_bytes vs)
    → (left : List (List ℕ)) × (propagate_vectors vs size ≡ some left)
      × (vector_bytes left ≡ drop size (vector_bytes vs))
      × (length left ≤ length vs)
unfolding propagate_vectors
propagate_vectors_correct vs zero h = (vs, refl, refl, omega arith)
propagate_vectors_correct [] (suc n) h = absurd (omega (arith, h))
propagate_vectors_correct (v ∷ vs) (suc n) h = elim (Bool-cases (ltb (suc n) (length v))) [
  | inl y ↦
      let lt = ltb→lt (suc n) (length v) y in
      (
        drop (suc n) v ∷ vs,
        rw y refl,
        sym (drop-append_short (suc n) v (vector_bytes vs) (omega (arith, lt))),
        omega arith,
      )
  | inr y ↦
      let le : length v ≤ suc n = ground (arith, y) in
      let total = length-append v (vector_bytes vs) in
      let (left, e, c, fewer) =
        propagate_vectors_correct vs (suc n - length v) (omega (arith, h, total, le)) in
      (
        left,
        rw (y, e) refl,
        c ∙ sym (drop-append_long (suc n) v (vector_bytes vs) le),
        omega (arith, fewer),
      )
]
