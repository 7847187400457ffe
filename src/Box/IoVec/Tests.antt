-- ===== src/Box/IoVec/Tests.antt =====
-- A step over two vectors and into the third, and the theorem at it.
use serverbox.Prelude.{ℕ, ◌≤◌, ◌≡◌, refl, some, List, [], ◌∷◌, arith, length, drop}
use serverbox.Box.IoVec.{propagate_vectors, vector_bytes, propagate_vectors_correct}

abbrev three_vectors : List (List ℕ)
three_vectors = (1 ∷ 2 ∷ []) ∷ [] ∷ (3 ∷ 4 ∷ 5 ∷ []) ∷ []

into_third : propagate_vectors three_vectors 3 ≡ some ((4 ∷ 5 ∷ []) ∷ [])
unfolding propagate_vectors
into_third = refl

propagate_vectors_correct_example :
    (left : List (List ℕ)) × (propagate_vectors three_vectors 3 ≡ some left)
    × (vector_bytes left ≡ drop 3 (vector_bytes three_vectors))
    × (length left ≤ length three_vectors)
propagate_vectors_correct_example = propagate_vectors_correct three_vectors 3 (omega arith)
