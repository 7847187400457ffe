-- ===== src/Net/Stream/Writing.antt =====
-- The loop of WriteCopy().
use serverbox.Prelude.{
  ℕ, zero, suc, ◌+◌, ◌-◌, ◌≤◌, ◌<◌, ◌≡◌, refl, sym, ap, ◌∙◌, ◌⊎◌, inl, inr, true, Option, some,
  List, [], ◌∷◌, ◌++◌, arith, ltb, ◌==◌, if◌then◌else◌, ltb→lt, lt→ltb, Bool-cases, length, take,
  drop, length-take, length-drop, take-append-drop, take_all, append-nil, append_assoc,
}
use serverbox.Net.Buffer.{Buffer, room, store_bytes, new_copy}
use serverbox.Net.Buffer.Contents.{
  IsSound, room_of, readable, contents, contents-append, store_bytes-IsSound, readable-store_bytes,
  new_copy-IsSound, readable-new_copy,
}
use serverbox.Net.Stream.{BufferStream, ends_full, end_before, write_loop, before_wpos, at_wpos}
use serverbox.Net.Stream.Shape.{
  first_pos, Settled, IsOpen, bytes_of, Settled-grow, Settled-append, contents-reserved,
}

-- A stream that has got bytes, in front of which `old` stood
abbrev pub Wrote : Option BufferStream → ℕ → List ℕ → Type 0
Wrote r rsize bytes =
    (s : BufferStream) × (r ≡ some s)
    × (s.rsize ≡ rsize)
    × Settled s.front s.back
    × IsOpen s.back
    × (s.wsize ≡ room_of s.back)
    × (bytes_of s ≡ bytes)
    × (s.rend ≡ (if first_pos s.back == 0 then some before_wpos else some at_wpos))

-- the bytes of a chain with one buffer grown, and nothing behind it
grown_bytes :
    (front rest : List Buffer) (w w1 : Buffer) (bytes : List ℕ)
    → contents rest ≡ []
    → readable w1 ≡ readable w ++ bytes
    → contents (front ++ (w1 ∷ rest)) ≡ contents (front ++ (w ∷ rest)) ++ bytes
unfolding contents
grown_bytes front rest w w1 bytes z e =
    rw
      (
        contents-append front (w1 ∷ rest),
        contents-append front (w ∷ rest),
        z,
        e,
        append-nil (readable w ++ bytes),
        append-nil (readable w),
      )
      (sym (append_assoc (contents front) (readable w) bytes))

-- the position and the room of a buffer that has got bytes
stored_pos : (w : Buffer) (bytes : List ℕ) → 0 < length bytes → 0 < (store_bytes w bytes).pos
unfolding store_bytes
stored_pos w bytes p = omega (arith, p)

stored_room :
    (w : Buffer) (bytes : List ℕ)
    → length bytes < room w
    → (store_bytes w bytes).pos < (store_bytes w bytes).capacity
unfolding store_bytes room
stored_room w bytes lt = omega (arith, lt)

stored_left : (w : Buffer) (bytes : List ℕ) → room (store_bytes w bytes) ≡ room w - length bytes
unfolding store_bytes room
stored_left w bytes = omega arith

marked_at :
    (w : Buffer) (rest : List Buffer)
    → 0 < w.pos
    → some at_wpos ≡ (if first_pos (w ∷ rest) == 0 then some before_wpos else some at_wpos)
marked_at w rest p = ground (arith, p)

write_last :
    (s : BufferStream) (w : Buffer) (rest : List Buffer) (bytes : List ℕ)
    → 0 < length bytes
    → length bytes < room w
    → Settled s.front (w ∷ rest)
    → IsOpen (w ∷ rest)
    → s.wsize ≡ room_of (w ∷ rest)
    → Wrote
        (some (record s {
          back = store_bytes w bytes ∷ rest;
          wsize = s.wsize - length bytes;
          rend = some at_wpos;
        }))
        s.rsize
        (contents (s.front ++ (w ∷ rest)) ++ bytes)
unfolding IsOpen bytes_of
write_last s w rest bytes p lt h (ws, lw, rs) e = (
  record s {
    back = store_bytes w bytes ∷ rest;
    wsize = s.wsize - length bytes;
    rend = some at_wpos;
  },
  refl,
  refl,
  Settled-grow s.front (w ∷ rest) (store_bytes w bytes ∷ rest) h (λ q. stored_pos w bytes p),
  (store_bytes-IsSound w bytes ws (omega (arith, lt)), stored_room w bytes lt, rs),
  omega (arith, e, stored_left w bytes, lt),
  grown_bytes s.front rest w (store_bytes w bytes) bytes (contents-reserved rest rs)
      (readable-store_bytes w bytes ws),
  marked_at (store_bytes w bytes) rest (stored_pos w bytes p),
)

abbrev pub filled_by : BufferStream → Buffer → List ℕ → BufferStream
filled_by s w bytes = record s { front = s.front ++ (store_bytes w bytes ∷ []); back = [] }

-- a buffer that has been filled joins those before the write position
filled-Settled :
    (front back : List Buffer) (w : Buffer) (bytes : List ℕ)
    → Settled front (w ∷ [])
    → IsSound w
    → w.pos < w.capacity
    → length bytes ≡ room w
    → Settled (front ++ (store_bytes w bytes ∷ [])) back
unfolding Settled store_bytes room
filled-Settled front back w bytes h (le, e) lt n =
    let w1 = store_bytes w bytes in
    let size : length bytes ≡ w.capacity - w.pos = n in
    let more : 0 < w.pos + length bytes = omega (arith, size, lt) in
    Settled-append front (w1 ∷ []) back (Settled-grow front (w ∷ []) (w1 ∷ back) h (λ q. more)) (
      store_bytes-IsSound w bytes (le, e) (omega (arith, size)),
      more,
      inl (omega (arith, size, lt)),
      tt,
    )

-- the buffer is filled by the last bytes
write_full :
    (s : BufferStream) (w : Buffer) (bytes : List ℕ)
    → Settled s.front (w ∷ [])
    → IsOpen (w ∷ [])
    → length bytes ≡ room w
    → Wrote
        (some (record (filled_by s w (take (room w) bytes)) { wsize = 0; rend = some before_wpos }))
        s.rsize
        (contents (s.front ++ (w ∷ [])) ++ bytes)
unfolding IsOpen bytes_of contents
write_full s w bytes h (ws, lw, rs) n =
    let whole : take (room w) bytes ≡ bytes = ap (λ k. take k bytes) (sym n) ∙ take_all bytes in
    let w1 = store_bytes w (take (room w) bytes) in
    (
      record (filled_by s w (take (room w) bytes)) { wsize = 0; rend = some before_wpos },
      refl,
      refl,
      filled-Settled s.front [] w (take (room w) bytes) h ws lw (ap length whole ∙ n),
      tt,
      refl,
      ap contents (append-nil (s.front ++ (w1 ∷ [])))
          ∙ grown_bytes s.front [] w w1 bytes refl
              (readable-store_bytes w (take (room w) bytes) ws ∙ ap (λ k. readable w ++ k) whole),
      refl,
    )

-- the buffer is filled, and the rest of the bytes goes on behind it
write_on :
    (r : Option BufferStream) (copy_size : ℕ) (s : BufferStream) (w : Buffer) (bytes : List ℕ)
    → IsSound w
    → Wrote r s.rsize (
        contents
          (s.front ++ (store_bytes w (take (room w) bytes) ∷ []) ++ (new_copy copy_size ∷ []))
        ++ drop (room w) bytes)
    → Wrote r s.rsize (contents (s.front ++ (w ∷ [])) ++ bytes)
unfolding contents
write_on r copy_size s w bytes ws (s1, e, z, h, o, wr, b, m) =
    let first = take (room w) bytes in
    let w1 = store_bytes w first in
    let old = contents (s.front ++ (w ∷ [])) in
    let filled : contents (s.front ++ (w1 ∷ [])) ≡ old ++ first =
      grown_bytes s.front [] w w1 first refl (readable-store_bytes w first ws) in
    let all : contents (s.front ++ (w1 ∷ []) ++ (new_copy copy_size ∷ [])) ≡ old ++ first =
      contents-append (s.front ++ (w1 ∷ [])) (new_copy copy_size ∷ [])
      ∙ rw (readable-new_copy copy_size, append-nil (contents (s.front ++ (w1 ∷ [])))) filled in
    (
      s1,
      e,
      z,
      h,
      o,
      wr,
      b
          ∙ ap (λ k. k ++ drop (room w) bytes) all
          ∙ append_assoc old first (drop (room w) bytes)
          ∙ ap (λ k. old ++ k) (take-append-drop (room w) bytes),
      m,
    )

-- a buffer that has got all it has room for is full
filled_full :
    (w : Buffer) (bytes : List ℕ)
    → w.pos < w.capacity
    → length bytes ≡ room w
    → ends_full (store_bytes w bytes ∷ []) ≡ true
unfolding ends_full store_bytes room
filled_full w bytes lt n = ground (arith, lt, n)

pub write_loop_lem :
    (copy_size fuel : ℕ) (s : BufferStream) (w : Buffer) (rest : List Buffer) (bytes : List ℕ)
    → 0 < copy_size
    → length bytes ≤ fuel
    → 0 < length bytes
    → Settled s.front (w ∷ rest)
    → IsOpen (w ∷ rest)
    → s.wsize ≡ room_of (w ∷ rest)
    → (rest ≡ []) ⊎ (length bytes < room w)
    → Wrote
        (write_loop copy_size fuel s (w ∷ rest) bytes)
        s.rsize
        (contents (s.front ++ (w ∷ rest)) ++ bytes)
unfolding write_loop IsOpen room new_copy end_before
write_loop_lem copy_size zero s w rest bytes c le p h o e fits = absurd (omega (arith, le, p))
write_loop_lem copy_size (suc fuel) s w (x ∷ rest) bytes c le p h (ws, lw, rs) e fits =
    let open_w : ltb w.pos w.capacity ≡ true = ground (arith, lw) in
    let lt : length bytes < room w = elim fits [ inl n ↦ absurd (ground (arith, n)) | inr k ↦ k ] in
    let y = lt→ltb (length bytes) (room w) lt in
    rw (open_w, y) (write_last s w (x ∷ rest) bytes p lt h (ws, lw, rs) e)
write_loop_lem copy_size (suc fuel) s w [] bytes c le p h (ws, lw, rs) e fits =
    let open_w : ltb w.pos w.capacity ≡ true = ground (arith, lw) in
    elim (Bool-cases (ltb (length bytes) (room w))) [
      | inl y ↦
          rw (open_w, y)
            (write_last s w [] bytes p (ltb→lt (length bytes) (room w) y) h (ws, lw, rs) e)
      | inr y ↦ elim (Bool-cases (room w == length bytes)) [
        | inl n ↦ rw (open_w, y, n) (write_full s w bytes h (ws, lw, rs) (ground (arith, n)))
        | inr n ↦
            let more : room w < length bytes = ground (arith, y, n) in
            let first = take (room w) bytes in
            let size : length first ≡ room w = omega (arith, length-take (room w) bytes, more) in
            let left = length-drop (room w) bytes in
            rw (open_w, y, n, filled_full w first lw size)
              (write_on _ copy_size s w bytes ws (
                write_loop_lem copy_size fuel (record (filled_by s w first) { wsize = copy_size })
                  (new_copy copy_size) [] (drop (room w) bytes) c (omega (arith, left, le, lw))
                  (omega (arith, left, more))
                  (filled-Settled s.front (new_copy copy_size ∷ []) w first h ws lw size)
                  (new_copy-IsSound copy_size, c, tt) (omega arith) (inl refl)))
      ]
    ]
