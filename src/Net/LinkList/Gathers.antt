-- ===== src/Net/LinkList/Gathers.antt =====
-- BuffersToIOVecsForWrite() of a list of links against that of one chain.
use serverbox.Prelude.{
  ℕ, zero, suc, ◌-◌, ◌≡◌, refl, sym, ◌∙◌, inl, inr, true, false, Option, none, some, List, [], ◌∷◌,
  ◌++◌, arith, ltb, ◌==◌, if◌then◌else◌, Bool-cases, ◌>>=◌, length, take, drop,
}
use serverbox.Net.Buffer.{Buffer, vectors_for_write}
use serverbox.Net.LinkList.{Link, chain_vectors, link_vectors}

-- The chain of all buffers of all links
abbrev pub whole : List Link → List Buffer
whole [] = []
whole (l ∷ ls) = l ++ whole ls

-- what comes behind the vectors of one chain
abbrev and_then : List Buffer → ℕ → List (List ℕ) × ℕ → Option (List (List ℕ))
and_then bs count (vs, offset) =
    if length vs == count
    then some vs
    else (vectors_for_write bs offset (count - length vs) >>= λ more. some (vs ++ more))

two_binds :
    (o : Option (List (List ℕ))) (v : List ℕ) (vs : List (List ℕ))
    → ((o >>= λ more. some (vs ++ more)) >>= λ all. some (v ∷ all))
      ≡ (o >>= λ more. some (v ∷ vs ++ more))
two_binds none v vs = refl
two_binds (some more) v vs = refl

bind_id : (o : Option (List (List ℕ))) → (o >>= λ more. some more) ≡ o
bind_id none = refl
bind_id (some vs) = refl

same_then :
    (r : Option (List (List ℕ) × ℕ)) (f g : List (List ℕ) × ℕ → Option (List (List ℕ)))
    → ((x : List (List ℕ) × ℕ) → f x ≡ g x)
    → (r >>= f) ≡ (r >>= g)
same_then none f g e = refl
same_then (some x) f g e = e x

no_vectors : (bs : List Buffer) (offset : ℕ) → vectors_for_write bs offset 0 ≡ some []
unfolding vectors_for_write
no_vectors [] offset = refl
no_vectors (b ∷ bs) offset = refl

one_behind :
    (r : Option (List (List ℕ) × ℕ)) (v : List ℕ) (bs : List Buffer) (count : ℕ)
    → ((r >>= and_then bs count) >>= λ vs. some (v ∷ vs))
      ≡ ((r >>= λ (vs, offset). some (v ∷ vs, offset)) >>= and_then bs (suc count))
one_behind none v bs count = refl
one_behind (some (vs, offset)) v bs count =
    let left : suc count - suc (length vs) ≡ count - length vs = omega arith in
    elim (Bool-cases (length vs == count)) [
      | inl y ↦ let z : (suc (length vs) == suc count) ≡ true = ground (arith, y) in rw (y, z) refl
      | inr y ↦
          let z : (suc (length vs) == suc count) ≡ false = ground (arith, y) in
          rw (y, z, left) (two_binds (vectors_for_write bs offset (count - length vs)) v vs)
    ]

joined_vectors :
    (l bs : List Buffer) (offset count : ℕ)
    → vectors_for_write (l ++ bs) offset count
      ≡ (chain_vectors l offset count >>= and_then bs count)
unfolding vectors_for_write chain_vectors
joined_vectors [] bs offset zero = no_vectors bs offset
joined_vectors [] bs offset (suc count) =
    let more : (0 == suc count) ≡ false = ground arith in
    let left : suc count - 0 ≡ suc count = omega arith in
    rw (more, left) (sym (bind_id (vectors_for_write bs offset (suc count))))
joined_vectors (b ∷ l) bs offset zero = refl
joined_vectors (b ∷ l) bs offset (suc count) = elim (Bool-cases (b.pos == 0)) [
  | inl y ↦ rw y (joined_vectors l bs offset (suc count))
  | inr y ↦ elim (Bool-cases (ltb offset b.pos)) [
    | inl z ↦
        rw (y, z, joined_vectors l bs 0 count)
          (one_behind (chain_vectors l 0 count) (drop offset (take b.pos b.bytes)) bs count)
    | inr z ↦ rw (y, z) refl
  ]
]

-- The vectors of a list of links are those of the chain of all its buffers.
pub link_vectors-vectors_for_write :
    (links : List Link) (offset count : ℕ)
    → link_vectors links offset count ≡ vectors_for_write (whole links) offset count
unfolding link_vectors vectors_for_write
link_vectors-vectors_for_write [] offset count = refl
link_vectors-vectors_for_write (l ∷ ls) offset count =
    same_then (chain_vectors l offset count) _ (and_then (whole ls) count)
      (λ (vs, offset1). rw (link_vectors-vectors_for_write ls offset1 (count - length vs)) refl)
    ∙ sym (joined_vectors l (whole ls) offset count)
