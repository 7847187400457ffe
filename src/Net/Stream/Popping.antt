-- ===== src/Net/Stream/Popping.antt =====
-- What PopData() hands out and leaves.
use serverbox.Prelude.{
  ℕ, ◌+◌, ◌<◌, ◌≡◌, refl, sym, ap, ◌∙◌, inl, inr, true, Option, none, some, List, [], ◌∷◌, ◌++◌,
  arith, ltb, ◌==◌, Bool-cases, length, append-nil,
}
use serverbox.Net.Buffer.{Buffer, room}
use serverbox.Net.Buffer.Contents.{room_of, AllReserved, contents, contents-append}
use serverbox.Net.Stream.{BufferStream, empty_stream, before_wpos, at_wpos}
use serverbox.Net.Stream.Shape.{
  first_pos, Settled, IsOpen, read_end, bytes_of, IsStream, empty_stream-IsStream,
  contents-reserved,
}
use serverbox.Net.Stream.Linking.{pop_by, last_room, popped_stream, last_has_data, pop_at, pop_data}

pub no_length : (bytes : List ℕ) → length bytes ≡ 0 → bytes ≡ []
no_length [] e = refl
no_length (x ∷ bytes) e = absurd (omega (arith, e))

pub reserved-IsOpen : (bs : List Buffer) → AllReserved bs → IsOpen bs
unfolding IsOpen
reserved-IsOpen [] h = tt
reserved-IsOpen (b ∷ bs) (z, p, s, h) = (s, omega (arith, z, p), h)

pub reserved-first_pos : (bs : List Buffer) → AllReserved bs → first_pos bs ≡ 0
reserved-first_pos [] h = refl
reserved-first_pos (b ∷ bs) (z, p, s, h) = z

-- empty buffers from the write position on
pub open-AllReserved : (bs : List Buffer) → IsOpen bs → first_pos bs ≡ 0 → AllReserved bs
unfolding IsOpen
open-AllReserved [] o z = tt
open-AllReserved (w ∷ rest) (s, lt, rs) z = (z, omega (arith, lt, z), s, rs)

-- A stream of empty buffers
abbrev reserve_only : List Buffer → ℕ → BufferStream
reserve_only back wsize = record { front = []; back = back; rsize = 0; wsize = wsize; rend = none }

left_IsStream :
    (s : BufferStream) (back : List Buffer) (lost : ℕ)
    → AllReserved back
    → s.wsize ≡ room_of back + lost
    → IsStream (popped_stream s back lost) × (bytes_of (popped_stream s back lost) ≡ [])
unfolding popped_stream bytes_of Settled read_end empty_stream contents
left_IsStream s [] lost rs w = (empty_stream-IsStream, refl)
left_IsStream s (b ∷ bs) lost rs w =
    let none_left = contents-reserved (b ∷ bs) rs in
    (
      record {
        settled = tt;
        writable = reserved-IsOpen (b ∷ bs) rs;
        reads = sym (ap length none_left);
        writes = omega (arith, w);
        marks = refl;
      },
      none_left,
    )

abbrev Popped : Option (List Buffer × BufferStream) → List ℕ → Type 0
Popped r bytes =
    (popped : List Buffer) × (s : BufferStream) × (r ≡ some (popped, s))
    × IsStream s
    × (contents popped ≡ bytes)
    × (bytes_of s ≡ [])

-- the last buffer before an empty write position, or before none
pub last_full :
    (b : Buffer) (bs back : List Buffer)
    → Settled (b ∷ bs) back
    → first_pos back ≡ 0
    → (last_has_data (b ∷ bs) ≡ true) × (last_room (b ∷ bs) ≡ 0)
unfolding Settled last_has_data last_room room
last_full b [] back (s, p, inl e, h) z = (ground (arith, p), omega (arith, e))
last_full b [] back (s, p, inr lt, h) z = absurd (omega (arith, lt, z))
last_full b (c ∷ bs) back (s, p, n, h) z = last_full c bs back h z

pop_before :
    (s : BufferStream) (front back : List Buffer)
    → IsStream (record s { front = front; back = back })
    → 0 < s.rsize
    → first_pos back ≡ 0
    → Popped
        (pop_at (record s { front = front; back = back }) before_wpos back)
        (contents (front ++ back))
unfolding pop_at bytes_of popped_stream
pop_before s [] back i p z =
    let none_left = contents-reserved back (open-AllReserved back i.writable z) in
    absurd (omega (arith, p, i.reads, ap length none_left))
pop_before s (b ∷ bs) back i p z =
    let (has, full) = last_full b bs back i.settled z in
    let rs = open-AllReserved back i.writable z in
    let (i1, c1) =
      left_IsStream (record s { front = b ∷ bs; back = back }) back 0 rs
        (omega (arith, i.writes)) in
    (
      b ∷ bs,
      popped_stream (record s { front = b ∷ bs; back = back }) back 0,
      rw (has, full) refl,
      i1,
      sym (
          contents-append (b ∷ bs) back
          ∙ rw (contents-reserved back rs) (append-nil (contents (b ∷ bs)))),
      c1,
    )

pop_with :
    (s : BufferStream) (back : List Buffer)
    → IsStream (record s { back = back })
    → 0 < first_pos back
    → Popped (pop_at (record s { back = back }) at_wpos back) (contents (s.front ++ back))
unfolding pop_at IsOpen popped_stream contents
pop_with s [] i p = elim p [ ]
pop_with s (w ∷ rest) i p =
    let has : ltb 0 w.pos ≡ true = ground (arith, p) in
    let rs = i.writable.2 in
    let (i1, c1) =
      left_IsStream (record s { back = w ∷ rest }) rest (room w) rs (omega (arith, i.writes)) in
    (
      s.front ++ (w ∷ []),
      popped_stream (record s { back = w ∷ rest }) rest (room w),
      rw has refl,
      i1,
      contents-append s.front (w ∷ [])
          ∙ rw (contents-append s.front (w ∷ rest), contents-reserved rest rs) refl,
      c1,
    )

-- PopData() hands out a chain with exactly the bytes of the stream, and leaves a well-formed stream
-- without bytes.
pub pop_data_correct :
    (s : BufferStream)
    → IsStream s
    → (popped : List Buffer) × (s' : BufferStream) × (pop_data s ≡ some (popped, s'))
      × IsStream s'
      × (contents popped ≡ bytes_of s)
      × (bytes_of s' ≡ [])
unfolding pop_data pop_by read_end contents bytes_of
pop_data_correct s i = elim (Bool-cases (s.rsize == 0)) [
  | inl y ↦
      let no_end : s.rend ≡ none = i.marks ∙ rw y refl in
      let no_bytes = no_length (bytes_of s) (ground (arith, i.reads, y)) in
      ([], s, ap (pop_by s) no_end ∙ rw y refl, i, sym no_bytes, no_bytes)
  | inr y ↦ elim (Bool-cases (first_pos s.back == 0)) [
    | inl z ↦
        let place : s.rend ≡ some before_wpos = i.marks ∙ rw (y, z) refl in
        let (popped, s1, e, i1, c, c1) =
          pop_before s s.front s.back i (ground (arith, y)) (ground (arith, z)) in
        (popped, s1, ap (pop_by s) place ∙ rw y e, i1, c, c1)
    | inr z ↦
        let place : s.rend ≡ some at_wpos = i.marks ∙ rw (y, z) refl in
        let (popped, s1, e, i1, c, c1) = pop_with s s.back i (ground (arith, z)) in
        (popped, s1, ap (pop_by s) place ∙ rw y e, i1, c, c1)
  ]
]
