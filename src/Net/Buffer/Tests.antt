-- ===== src/Net/Buffer/Tests.antt =====
-- Runs over a chain of three buffers, and the theorem at it.
use serverbox.Prelude.{ℕ, ◌≤◌, ◌≡◌, refl, ◌⊎◌, inr, some, List, [], ◌∷◌, ◌++◌, arith, length, drop}
use serverbox.Net.Buffer.{Buffer, vectors_for_write}
use serverbox.Net.Buffer.Contents.{contents}
use serverbox.Net.Buffer.References.{max_size, AllWithin, buffers_ref, buffers_ref_correct}
use serverbox.Net.Buffer.Vectors.{flatten, vectors_for_write_correct}

abbrev chain : List Buffer
chain =
    record { pos = 2; capacity = 2; bytes = 1 ∷ 2 ∷ [] }
    ∷ record { pos = 0; capacity = 3; bytes = 0 ∷ 0 ∷ 0 ∷ [] }
    ∷ record { pos = 2; capacity = 3; bytes = 4 ∷ 5 ∷ 0 ∷ [] }
    ∷ []

two_vectors : vectors_for_write chain 1 5 ≡ some ((2 ∷ []) ∷ (4 ∷ 5 ∷ []) ∷ [])
unfolding vectors_for_write
two_vectors = refl

vectors_for_write_correct_example :
    (vs : List (List ℕ)) × (left : List ℕ) × (vectors_for_write chain 1 1 ≡ some vs)
    × (length vs ≤ 1)
    × (flatten vs ++ left ≡ drop 1 (contents chain))
    × ((left ≡ []) ⊎ (length vs ≡ 1))
vectors_for_write_correct_example =
    vectors_for_write_correct chain 1 1
      ((omega arith, refl), ((omega arith, refl), ((omega arith, refl), tt))) (inr (omega arith))

buffers_ref_correct_example :
    (bs : List Buffer) × (buffers_ref (1 ∷ 2 ∷ []) ≡ some bs)
    × AllWithin max_size bs
    × (contents bs ≡ 1 ∷ 2 ∷ [])
buffers_ref_correct_example = buffers_ref_correct (1 ∷ 2 ∷ [])
