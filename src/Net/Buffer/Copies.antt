-- ===== src/Net/Buffer/Copies.antt =====
-- The copies of data and of chains: BuffersCopy() in its forms.
use serverbox.Prelude.{
  ℕ, zero, suc, ◌≤◌, ◌<◌, ◌≡◌, refl, sym, ap, ◌∙◌, subst, inl, inr, false, Option, some, List, [],
  ◌∷◌, ◌++◌, arith, ltb, leb, ◌==◌, ltb→lt, leb→le, Bool-cases, ◌>>=◌, length, take, drop,
  length-take, length-drop, take-append-drop, append-nil, append_assoc,
}
use serverbox.Net.Buffer.{
  Buffer, room, store_bytes, new_copy, append_new, copy_append, buffers_copy, copy_each, skip_empty,
  buffers_copy_chain, copy_found,
}
use serverbox.Net.Buffer.Contents.{
  IsSound, AllSound, readable, contents, contents-append, AllSound-append, store_bytes-IsSound,
  readable-store_bytes, new_copy-IsSound, readable-new_copy,
}

-- What an append of bytes to the last buffer of a chain leaves
abbrev pub Appended : Option (List Buffer × Buffer) → Buffer → List ℕ → Type 0
Appended r b bytes =
    (done : List Buffer) × (tail : Buffer) × (r ≡ some (done, tail))
    × AllSound done
    × IsSound tail
    × (contents done ++ readable tail ≡ readable b ++ bytes)

store-Appended :
    (b : Buffer) (bytes : List ℕ)
    → IsSound b
    → length bytes ≤ room b
    → Appended (some ([], store_bytes b bytes)) b bytes
unfolding contents
store-Appended b bytes s h = (
  [],
  store_bytes b bytes,
  refl,
  tt,
  store_bytes-IsSound b bytes s h,
  readable-store_bytes b bytes s,
)

-- one buffer that is filled, and the others behind it
fill-Appended :
    (copy_size : ℕ) (b : Buffer) (bytes : List ℕ) (r : Option (List Buffer × Buffer))
    → IsSound b
    → room b ≤ length bytes
    → Appended r (new_copy copy_size) (drop (room b) bytes)
    → Appended
        (r >>= λ (done, tail). some (store_bytes b (take (room b) bytes) ∷ done, tail))
        b
        bytes
unfolding contents
fill-Appended copy_size b bytes r s h (done, tail, e, ds, ts, c) =
    let first = take (room b) bytes in
    let size : length first ≤ room b = omega (arith, length-take (room b) bytes) in
    let c1 : contents done ++ readable tail ≡ drop (room b) bytes =
      c ∙ rw (readable-new_copy copy_size) refl in
    (
      store_bytes b first ∷ done,
      tail,
      rw e refl,
      (store_bytes-IsSound b first s size, ds),
      ts,
      rw
          (
            readable-store_bytes b first s,
            append_assoc (readable b ++ first) (contents done) (readable tail),
            c1,
            append_assoc (readable b) first (drop (room b) bytes),
            take-append-drop (room b) bytes,
          )
          refl,
    )

room-new_copy : (n : ℕ) → room (new_copy n) ≡ n
unfolding room new_copy
room-new_copy n = omega arith

pub append_new_lem :
    (copy_size fuel : ℕ) (bytes : List ℕ)
    → 0 < copy_size
    → 0 < length bytes
    → length bytes ≤ fuel
    → Appended (append_new copy_size fuel bytes) (new_copy copy_size) bytes
unfolding append_new
append_new_lem copy_size zero bytes h p k = absurd (omega arith)
append_new_lem copy_size (suc fuel) bytes h p k =
    let b = new_copy copy_size in
    let size = room-new_copy copy_size in
    elim (Bool-cases (ltb copy_size (length bytes))) [
      | inl e ↦
          let lt = ltb→lt copy_size (length bytes) e in
          let left = length-drop copy_size bytes in
          let rest =
            append_new_lem copy_size fuel (drop copy_size bytes) h (omega (arith, lt, left))
              (omega (arith, lt, left)) in
          rw e (
            subst
              (λ n.
                Appended
                  (append_new copy_size fuel (drop n bytes) >>= λ (done, tail).
                    some (store_bytes b (take n bytes) ∷ done, tail))
                  b bytes)
              size
              (fill-Appended copy_size b bytes (append_new copy_size fuel (drop (room b) bytes))
                (new_copy-IsSound copy_size) (omega (arith, lt, size)) (rw size rest)))
      | inr e ↦ rw e (store-Appended b bytes (new_copy-IsSound copy_size) (ground (arith, e, size)))
    ]

-- An append to a buffer: it is filled, and what does not fit goes to new buffers behind it.
pub copy_append_lem :
    (copy_size : ℕ) (b : Buffer) (bytes : List ℕ)
    → 0 < copy_size
    → IsSound b
    → Appended (copy_append copy_size b bytes) b bytes
unfolding copy_append contents
copy_append_lem copy_size b [] h s = ([], b, refl, tt, s, sym (append-nil (readable b)))
copy_append_lem copy_size b (x ∷ xs) h s =
    let bytes = x ∷ xs in
    let some_bytes : (length bytes == 0) ≡ false = ground arith in
    rw some_bytes (elim (Bool-cases (leb (length bytes) (room b))) [
      | inl e ↦ rw e (store-Appended b bytes s (leb→le (length bytes) (room b) e))
      | inr e ↦
          let lt : room b < length bytes = ground (arith, e) in
          let left = length-drop (room b) bytes in
          let rest =
            append_new_lem copy_size (length bytes) (drop (room b) bytes) h
              (omega (arith, lt, left)) (omega (arith, left)) in
          rw e (
            fill-Appended copy_size b bytes
              (append_new copy_size (length bytes) (drop (room b) bytes)) s (omega (arith, lt))
              rest)
    ])

pub contents_last :
    (done : List Buffer) (tail : Buffer)
    → contents (done ++ (tail ∷ [])) ≡ contents done ++ readable tail
unfolding contents
contents_last done tail =
    contents-append done (tail ∷ []) ∙ ap (λ r. contents done ++ r) (append-nil (readable tail))

-- BuffersCopy() of data makes a chain that holds exactly the data.
pub buffers_copy_correct :
    (copy_size : ℕ) (bytes : List ℕ)
    → 0 < copy_size
    → (bs : List Buffer) × (buffers_copy copy_size bytes ≡ some bs)
      × AllSound bs
      × (contents bs ≡ bytes)
unfolding buffers_copy contents
buffers_copy_correct copy_size [] h = ([], refl, tt, refl)
buffers_copy_correct copy_size (x ∷ xs) h =
    let some_bytes : (length (x ∷ xs) == 0) ≡ false = ground arith in
    let (done, tail, e, ds, ts, c) =
      copy_append_lem copy_size (new_copy copy_size) (x ∷ xs) h (new_copy-IsSound copy_size) in
    (
      done ++ (tail ∷ []),
      rw (some_bytes, e) refl,
      AllSound-append done (tail ∷ []) ds (ts, tt),
      contents_last done tail ∙ c ∙ rw (readable-new_copy copy_size) refl,
    )

pub copy_each_lem :
    (copy_size : ℕ) (tail : Buffer) (bs : List Buffer)
    → 0 < copy_size
    → IsSound tail
    → Appended (copy_each copy_size tail bs) tail (contents bs)
unfolding copy_each contents readable
copy_each_lem copy_size tail [] h s = ([], tail, refl, tt, s, sym (append-nil (readable tail)))
copy_each_lem copy_size tail (b ∷ bs) h s =
    let (done, tail1, e, ds, ts, c) = copy_append_lem copy_size tail (readable b) h s in
    let (more, tail2, e2, ms, ts2, c2) = copy_each_lem copy_size tail1 bs h ts in
    (
      done ++ more,
      tail2,
      rw e (rw e2 refl),
      AllSound-append done more ds ms,
      ts2,
      rw
          (
            contents-append done more,
            append_assoc (contents done) (contents more) (readable tail2),
            c2,
            sym (append_assoc (contents done) (readable tail1) (contents bs)),
            c,
          )
          (append_assoc (readable tail) (readable b) (contents bs)),
    )

pub contents-skip_empty : (bs : List Buffer) → contents (skip_empty bs) ≡ contents bs
unfolding skip_empty contents readable
contents-skip_empty [] = refl
contents-skip_empty (b ∷ bs) = elim (Bool-cases (b.pos == 0)) [
  | inl e ↦
      let z : b.pos ≡ 0 = ground (arith, e) in
      rw e (contents-skip_empty bs ∙ ap (λ n. take n b.bytes ++ contents bs) (sym z))
  | inr e ↦ rw e refl
]

copy_found_lem :
    (copy_size : ℕ) (bs : List Buffer)
    → 0 < copy_size
    → (cs : List Buffer) × (copy_found copy_size bs ≡ some cs)
      × AllSound cs
      × (contents cs ≡ contents bs)
unfolding copy_found
copy_found_lem copy_size [] h = ([], refl, tt, refl)
copy_found_lem copy_size (b ∷ bs) h =
    let (done, tail, e, ds, ts, c) =
      copy_each_lem copy_size (new_copy copy_size) (b ∷ bs) h (new_copy-IsSound copy_size) in
    (
      done ++ (tail ∷ []),
      rw e refl,
      AllSound-append done (tail ∷ []) ds (ts, tt),
      contents_last done tail ∙ c ∙ rw (readable-new_copy copy_size) refl,
    )

-- BuffersCopy() of a chain makes a chain that holds the same bytes, whatever empty buffers the
-- chain has.
pub buffers_copy_chain_correct :
    (copy_size : ℕ) (bs : List Buffer)
    → 0 < copy_size
    → (cs : List Buffer) × (buffers_copy_chain copy_size bs ≡ some cs)
      × AllSound cs
      × (contents cs ≡ contents bs)
unfolding buffers_copy_chain
buffers_copy_chain_correct copy_size bs h =
    let (cs, e, s, c) = copy_found_lem copy_size (skip_empty bs) h in
    (cs, e, s, c ∙ contents-skip_empty bs)
