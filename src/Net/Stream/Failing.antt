-- ===== src/Net/Stream/Failing.antt =====
-- WriteCopy() where more than one buffer has been reserved.
use serverbox.Prelude.{
  ℕ, ◌+◌, ◌-◌, ◌≤◌, ◌<◌, ◌≡◌, refl, ◌∙◌, ◌⊎◌, inl, inr, true, false, none, some, List, [], ◌∷◌,
  ◌++◌, arith, ltb, ◌==◌, length, take, Bool-cases,
}
use serverbox.Net.Buffer.{Buffer, room, store_bytes}
use serverbox.Net.Buffer.Contents.{AllReserved}
use serverbox.Net.Stream.{
  BufferStream, is_empty, ends_full, open_back, end_before, write_loop, write_copy,
}
use serverbox.Net.Stream.Shape.{Settled, IsOpen, IsStream}

reserved_open :
    (x : Buffer) (rest : List Buffer) → AllReserved (x ∷ rest) → ends_full (x ∷ rest) ≡ false
unfolding ends_full
reserved_open x [] h = ground (arith, h.0, h.1)
reserved_open x (y ∷ rest) h = reserved_open y rest h.3

behind_open :
    (w x : Buffer) (rest : List Buffer) → AllReserved (x ∷ rest) → ends_full (w ∷ x ∷ rest) ≡ false
unfolding ends_full
behind_open w x rest h = reserved_open x rest h

-- the end of a chain is told by its last part
ends_full-append :
    (front : List Buffer) (b : Buffer) (bs : List Buffer)
    → ends_full (front ++ (b ∷ bs)) ≡ ends_full (b ∷ bs)
unfolding ends_full
ends_full-append [] b bs = refl
ends_full-append (c ∷ []) b bs = refl
ends_full-append (c ∷ d ∷ front) b bs = ends_full-append (d ∷ front) b bs

joined_chain :
    (front : List Buffer) (b : Buffer) (bs : List Buffer) → is_empty (front ++ (b ∷ bs)) ≡ false
joined_chain [] b bs = refl
joined_chain (c ∷ front) b bs = refl

-- a buffer with nothing in it is not settled
hollow :
    (front : List Buffer) (w x : Buffer) (rest : List Buffer)
    → x.pos ≡ 0
    → Settled (front ++ (w ∷ x ∷ rest)) []
    → ⊥
unfolding Settled
hollow [] w x rest z (_, _, _, (_, p, _, _)) = absurd (omega (arith, z, p))
hollow (b ∷ front) w x rest z (_, _, _, h) = hollow front w x rest z h

-- The stream is not well-formed, and no more bytes can be written to it.
abbrev pub IsBroken : ℕ → BufferStream → Type 0
IsBroken copy_size s =
    (IsStream s → ⊥) × ((more : List ℕ) → 0 < length more → write_copy copy_size s more ≡ none)

broken_lem :
    (copy_size : ℕ) (s : BufferStream) (w x : Buffer) (rest : List Buffer)
    → AllReserved (x ∷ rest)
    → IsBroken copy_size (record s { front = s.front ++ (w ∷ x ∷ rest); back = []; wsize = 0 })
unfolding write_copy open_back
broken_lem copy_size s w x rest h = (
  (λ i. hollow s.front w x rest h.0 i.settled),
  λ more p.
      let some_bytes : (length more == 0) ≡ false = ground (arith, p) in
      let held = joined_chain s.front w (x ∷ rest) in
      let gap = ends_full-append s.front w (x ∷ rest) ∙ behind_open w x rest h in
      rw (some_bytes, held, gap) refl,
)

-- WriteCopy() to a well-formed stream with a buffer reserved behind the one at the write position, of
-- bytes that leave no room in that one: with more bytes than it has room for, the assertion that the
-- tail is full fails; with exactly as many, the call returns, PrivCheck() aside, but leaves a stream
-- that is not well-formed, and to which any further WriteCopy() of a byte or more fails an assertion.
pub write_copy_fails :
    (copy_size : ℕ) (s : BufferStream) (w x : Buffer) (rest : List Buffer) (bytes : List ℕ)
    → IsStream (record s { back = w ∷ x ∷ rest })
    → room w ≤ length bytes
    → ((room w < length bytes)
        × (write_copy copy_size (record s { back = w ∷ x ∷ rest }) bytes ≡ none))
      ⊎ ((room w ≡ length bytes)
          × (s' : BufferStream) × (write_copy copy_size (record s { back = w ∷ x ∷ rest }) bytes
              ≡ some s')
          × IsBroken copy_size s')
unfolding write_copy write_loop IsOpen room
write_copy_fails copy_size s w x rest [] i le = absurd (omega (arith, le, i.writable.1))
write_copy_fails copy_size s w x rest (b ∷ bs) i le =
    let open_w : ltb w.pos w.capacity ≡ true = ground (arith, i.writable.1) in
    let no_room : ltb (length (b ∷ bs)) (w.capacity - w.pos) ≡ false = ground (arith, le) in
    let some_bytes : (length (b ∷ bs) == 0) ≡ false = ground arith in
    let w1 = store_bytes w (take (room w) (b ∷ bs)) in
    let gap = behind_open w1 x rest i.writable.2 in
    elim (Bool-cases ((w.capacity - w.pos) == length (b ∷ bs))) [
      | inl n ↦ inr (
        ground (arith, n),
        _,
        rw (some_bytes, open_w, no_room, n) refl,
        broken_lem copy_size
            (record s { rsize = s.rsize + length (b ∷ bs); rend = some (end_before (x ∷ rest)) })
            (store_bytes w (take (room w) (b ∷ bs))) x rest i.writable.2,
      )
      | inr n ↦ inl (ground (arith, le, n), rw (some_bytes, open_w, no_room, n, gap) refl)
    ]
