-- ===== src/Net/Buffer/References.antt =====
-- src/mg/net/Buffer.cpp, BuffersRef(): a chain that refers to data of any size, by buffers whose
-- sizes are 32-bit numbers.
use serverbox.Prelude.{
  ℕ, zero, suc, ◌≤◌, ◌<◌, ◌≡◌, refl, ◌∙◌, inl, inr, true, false, Option, none, some, List, [], ◌∷◌,
  arith, ltb, leb, ◌==◌, if◌then◌else◌, ltb→lt, leb→le, Bool-cases, ◌>>=◌, length, take, drop,
  length-take, length-drop, take-append-drop, take_all, append-nil,
}
use serverbox.Net.Buffer.{Buffer, new_raw}
use serverbox.Net.Buffer.Contents.{IsSound, readable, contents, new_raw-IsSound, readable-new_raw}

-- UINT32_MAX
abbrev pub max_size : ℕ
max_size = 4294967295

-- The loop of BuffersRef(), and the last buffer
unfoldable pub ref_loop : ℕ → ℕ → List ℕ → Option (List Buffer)
ref_loop limit zero bytes = none
ref_loop limit (suc fuel) bytes =
    let rest = ref_loop limit fuel (drop limit bytes) in
    if ltb limit (length bytes)
    then (rest >>= λ bs. some (new_raw (take limit bytes) ∷ bs))
    else if ltb 0 (length bytes)
    then some (new_raw bytes ∷ [])
    else none

-- BuffersRef(), with the limit of a buffer's size
unfoldable pub ref_chunks : ℕ → List ℕ → Option (List Buffer)
ref_chunks limit bytes =
    let rest = ref_loop limit (length bytes) (drop limit bytes) in
    if leb (length bytes) limit
    then (if length bytes == 0 then some [] else some (new_raw bytes ∷ []))
    else (rest >>= λ bs. some (new_raw (take limit bytes) ∷ bs))

-- BuffersRef()
pub buffers_ref : List ℕ → Option (List Buffer)
buffers_ref bytes = ref_chunks max_size bytes

-- The buffers have data, and no more than the limit.
abbrev pub AllWithin : ℕ → List Buffer → Type 0
AllWithin limit [] = Unit
AllWithin limit (b ∷ bs) = IsSound b × (0 < b.pos) × (b.capacity ≤ limit) × AllWithin limit bs

abbrev Split : ℕ → Option (List Buffer) → List ℕ → Type 0
Split limit r bytes =
    (bs : List Buffer) × (r ≡ some bs) × AllWithin limit bs × (contents bs ≡ bytes)

one_chunk :
    (limit : ℕ) (bytes : List ℕ)
    → 0 < length bytes
    → length bytes ≤ limit
    → Split limit (some (new_raw bytes ∷ [])) bytes
unfolding new_raw contents readable
one_chunk limit bytes p h = (
  new_raw bytes ∷ [],
  refl,
  ((omega arith, refl), p, h, tt),
  append-nil (take (length bytes) bytes) ∙ take_all bytes,
)

next_chunk :
    (limit : ℕ) (bytes : List ℕ) (r : Option (List Buffer))
    → 0 < limit
    → limit < length bytes
    → Split limit r (drop limit bytes)
    → Split limit (r >>= λ bs. some (new_raw (take limit bytes) ∷ bs)) bytes
unfolding new_raw contents
next_chunk limit bytes r p h (bs, e, s, c) =
    let size = length-take limit bytes in
    (
      new_raw (take limit bytes) ∷ bs,
      rw e refl,
      (new_raw-IsSound (take limit bytes), omega (arith, size, h, p), omega (arith, size), s),
      rw (readable-new_raw (take limit bytes), c) (take-append-drop limit bytes),
    )

ref_loop_lem :
    (limit fuel : ℕ) (bytes : List ℕ)
    → 0 < limit
    → 0 < length bytes
    → length bytes ≤ fuel
    → Split limit (ref_loop limit fuel bytes) bytes
unfolding ref_loop
ref_loop_lem limit zero bytes p q h = absurd (omega (arith, q, h))
ref_loop_lem limit (suc fuel) bytes p q h =
    let left = length-drop limit bytes in
    elim (Bool-cases (ltb limit (length bytes))) [
      | inl y ↦
          let lt = ltb→lt limit (length bytes) y in
          rw y (
            next_chunk limit bytes (ref_loop limit fuel (drop limit bytes)) p lt (
              ref_loop_lem limit fuel (drop limit bytes) p (omega (arith, left, lt))
                (omega (arith, left, p, h))))
      | inr y ↦
          let full : ltb 0 (length bytes) ≡ true = ground (arith, q) in
          rw (y, full) (one_chunk limit bytes q (ground (arith, y)))
    ]

ref_chunks_lem :
    (limit : ℕ) (bytes : List ℕ) → 0 < limit → Split limit (ref_chunks limit bytes) bytes
unfolding ref_chunks contents
ref_chunks_lem limit [] p =
    let any : leb 0 limit ≡ true = ground arith in rw any ([], refl, tt, refl)
ref_chunks_lem limit (x ∷ xs) p =
    let bytes = x ∷ xs in
    let some_bytes : (length bytes == 0) ≡ false = ground arith in
    let left = length-drop limit bytes in
    elim (Bool-cases (leb (length bytes) limit)) [
      | inl y ↦
          rw (y, some_bytes) (one_chunk limit bytes (omega arith) (leb→le (length bytes) limit y))
      | inr y ↦
          let lt : limit < length bytes = ground (arith, y) in
          rw y (
            next_chunk limit bytes (ref_loop limit (length bytes) (drop limit bytes)) p lt (
              ref_loop_lem limit (length bytes) (drop limit bytes) p (omega (arith, left, lt))
                (omega (arith, left))))
    ]

-- BuffersRef() of data of any size makes a chain of exactly the data, in buffers that are not empty
-- and whose sizes are 32-bit numbers.
pub buffers_ref_correct :
    (bytes : List ℕ)
    → (bs : List Buffer) × (buffers_ref bytes ≡ some bs)
      × AllWithin max_size bs
      × (contents bs ≡ bytes)
unfolding buffers_ref
buffers_ref_correct bytes = ref_chunks_lem max_size bytes (omega arith)
