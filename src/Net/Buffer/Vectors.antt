-- ===== src/Net/Buffer/Vectors.antt =====
-- The vectors that a chain is sent from and received into: BuffersToIOVecsForWrite() and
-- BuffersToIOVecsForRead().
use serverbox.Prelude.{
  map, ℕ, zero, suc, ◌-◌, ◌≤◌, ◌<◌, ◌≡◌, refl, sym, ap, ◌∙◌, ◌⊎◌, inl, inr, true, false, ◌&&◌,
  Option, some, List, [], ◌∷◌, ◌++◌, arith, ltb, ◌==◌, Bool-cases, ◌>>=◌, length, take, drop,
  drop-append_short, append_assoc,
}
use serverbox.Net.Buffer.{Buffer, room, vectors_for_write, more_vectors, vectors_for_read}
use serverbox.Net.Buffer.Contents.{
  no_data, AllReserved, IsSound, AllSound, readable, contents, length-readable,
}

abbrev pub flatten : List (List ℕ) → List ℕ
flatten [] = []
flatten (v ∷ vs) = v ++ flatten vs

abbrev pub StartsIn : List Buffer → ℕ → Type 0
StartsIn [] offset = offset ≡ 0
StartsIn (b ∷ bs) offset = ((b.pos ≡ 0) × StartsIn bs offset) ⊎ (offset < b.pos)

starts_at_zero : (bs : List Buffer) → StartsIn bs 0
starts_at_zero [] = refl
starts_at_zero (b ∷ bs) = elim (Bool-cases (b.pos == 0)) [
  | inl e ↦ inl (ground (arith, e), starts_at_zero bs)
  | inr e ↦ inr (ground (arith, e))
]

abbrev Gathers : Option (List (List ℕ)) → List ℕ → ℕ → Type 0
Gathers r bytes count =
    (vs : List (List ℕ)) × (left : List ℕ) × (r ≡ some vs)
    × (length vs ≤ count)
    × (flatten vs ++ left ≡ bytes)
    × ((left ≡ []) ⊎ (length vs ≡ count))

one_more :
    (r : Option (List (List ℕ))) (b : Buffer) (bytes : List ℕ) (offset count : ℕ)
    → IsSound b
    → offset < b.pos
    → Gathers r bytes count
    → Gathers
        (r >>= λ vs. some (drop offset (readable b) ∷ vs))
        (drop offset (readable b ++ bytes))
        (suc count)
one_more r b bytes offset count s h (vs, left, e, le, f, or) =
    let fits : offset ≤ length (readable b) = omega (arith, length-readable b s, h) in
    (
      drop offset (readable b) ∷ vs,
      left,
      rw e refl,
      omega arith,
      append_assoc (drop offset (readable b)) (flatten vs) left
          ∙ ap (λ r. drop offset (readable b) ++ r) f
          ∙ sym (drop-append_short offset (readable b) bytes fits),
      elim or [ inl n ↦ inl n | inr n ↦ inr (ap suc n) ],
    )

-- BuffersToIOVecsForWrite() of a chain whose first data buffer has more data than the offset: the
-- vectors are at most as many as asked for, and the bytes they stand for, in their order, are the
-- bytes of the chain behind the offset, all of them if there were vectors left.
pub vectors_for_write_correct :
    (bs : List Buffer) (offset count : ℕ)
    → AllSound bs
    → StartsIn bs offset
    → (vs : List (List ℕ)) × (left : List ℕ) × (vectors_for_write bs offset count ≡ some vs)
      × (length vs ≤ count)
      × (flatten vs ++ left ≡ drop offset (contents bs))
      × ((left ≡ []) ⊎ (length vs ≡ count))
unfolding vectors_for_write contents readable
vectors_for_write_correct [] offset count s h =
    ([], [], refl, omega arith, ap (λ n. drop n []) (sym h), inl refl)
vectors_for_write_correct (b ∷ bs) offset zero s h =
    ([], drop offset (contents (b ∷ bs)), refl, omega arith, refl, inr refl)
vectors_for_write_correct (b ∷ bs) offset (suc count) (s, ss) (inl (z, h)) =
    let (vs, left, e, le, f, or) = vectors_for_write_correct bs offset (suc count) ss h in
    let skipped : (b.pos == 0) ≡ true = ground (arith, z) in
    (
      vs,
      left,
      rw (skipped, e) refl,
      le,
      f ∙ ap (λ r. drop offset (r ++ contents bs)) (sym (no_data b z)),
      or,
    )
vectors_for_write_correct (b ∷ bs) offset (suc count) (s, ss) (inr lt) =
    let taken : (b.pos == 0) ≡ false = ground (arith, lt) in
    let inside : ltb offset b.pos ≡ true = ground (arith, lt) in
    rw (taken, inside)
      (one_more (vectors_for_write bs 0 count) b (contents bs) offset count s lt
        (vectors_for_write_correct bs 0 count ss (starts_at_zero bs)))

more_vectors_lem :
    (bs : List Buffer) (count : ℕ)
    → AllReserved bs
    → (sizes : List ℕ) × (more_vectors bs count ≡ some sizes) × (sizes ≡ map room (take count bs))
unfolding more_vectors room
more_vectors_lem [] zero h = ([], refl, refl)
more_vectors_lem [] (suc count) h = ([], refl, refl)
more_vectors_lem (b ∷ bs) zero h = ([], refl, refl)
more_vectors_lem (b ∷ bs) (suc count) (z, p, s, h) =
    let (sizes, e, f) = more_vectors_lem bs count h in
    let good : ((b.pos == 0) && ltb 0 b.capacity) ≡ true = ground (arith, z, p) in
    let same : b.capacity ≡ b.capacity - b.pos = omega (arith, z) in
    (b.capacity ∷ sizes, rw (good, e) refl, rw f (ap (λ n. n ∷ map room (take count bs)) same))

-- BuffersToIOVecsForRead() of a chain to write to: no assertion fails, and there is a vector for the
-- room of each buffer, up to the number asked for.
pub vectors_for_read_correct :
    (b : Buffer) (bs : List Buffer) (count : ℕ)
    → b.pos < b.capacity
    → AllReserved bs
    → 0 < count
    → vectors_for_read (b ∷ bs) count ≡ some (map room (take count (b ∷ bs)))
unfolding vectors_for_read
vectors_for_read_correct b bs zero h rs p = elim p [ ]
vectors_for_read_correct b bs (suc count) h rs p =
    let (sizes, e, f) = more_vectors_lem bs count rs in
    let good : ltb b.pos b.capacity ≡ true = ground (arith, h) in rw (good, e, f) refl
