-- ===== src/Net/Stream/Joining.antt =====
-- A chain put into a stream.
use serverbox.Prelude.{
  ℕ, ◌+◌, ◌-◌, ◌<◌, ◌≡◌, refl, sym, ap, ◌∙◌, inl, inr, true, false, Option, some, List, [], ◌∷◌,
  ◌++◌, arith, ◌==◌, if◌then◌else◌, Bool-cases, length, length-append, append-nil, append_assoc,
}
use serverbox.Net.Buffer.{Buffer, room}
use serverbox.Net.Buffer.Contents.{
  IsSound, room_of, AllReserved, readable, contents, length-readable, contents-append,
}
use serverbox.Net.Stream.{BufferStream, before_wpos, at_wpos}
use serverbox.Net.Stream.Shape.{
  first_pos, Settled, IsOpen, read_end, bytes_of, IsStream, Settled-grow, Settled-append,
  contents-reserved,
}
use serverbox.Net.Stream.Linking.{last_room, size_of, put_before, joined}
use serverbox.Net.Stream.Popping.{reserved-IsOpen, reserved-first_pos}

-- A chain that can be referred to: every buffer has data.
abbrev pub AllData : List Buffer → Type 0
AllData [] = Unit
AllData (b ∷ bs) = IsSound b × (0 < b.pos) × AllData bs

size_of-contents : (bs : List Buffer) → AllData bs → size_of bs ≡ length (contents bs)
unfolding size_of contents
size_of-contents [] h = refl
size_of-contents (b ∷ bs) (s, p, h) =
    omega
      (arith, length-append (readable b) (contents bs), length-readable b s, size_of-contents bs h)

-- A chain with data put before empty buffers
record Put (chain back : List Buffer) (parts : List Buffer × List Buffer) : Type 0 where
  whole : parts.0 ++ parts.1 ≡ chain ++ back
  settled : Settled parts.0 parts.1
  starts : 0 < first_pos (parts.0 ++ parts.1)
  writable : IsOpen parts.1
  rooms : room_of parts.1 ≡ room_of back + last_room chain
  mark :
      (if last_room chain == 0 then some before_wpos else some at_wpos)
      ≡ (if first_pos parts.1 == 0 then some before_wpos else some at_wpos)

single_chain :
    (b : Buffer) (back : List Buffer)
    → IsSound b
    → 0 < b.pos
    → AllReserved back
    → Put (b ∷ []) back (put_before (b ∷ []) back)
unfolding put_before last_room room Settled IsOpen
single_chain b back (le, e) p rs = elim (Bool-cases (b.pos == b.capacity)) [
  | inl y ↦
      let full : b.pos ≡ b.capacity = ground (arith, y) in
      let no_room : (b.capacity - b.pos == 0) ≡ true = ground (arith, full) in
      let next : (first_pos back == 0) ≡ true = ground (arith, reserved-first_pos back rs) in
      rw y (record {
        whole = refl;
        settled = ((le, e), p, inl full, tt);
        starts = p;
        writable = reserved-IsOpen back rs;
        rooms = omega (arith, full);
        mark = rw (no_room, next) refl;
      })
  | inr y ↦
      let lt : b.pos < b.capacity = ground (arith, y, le) in
      let some_room : (b.capacity - b.pos == 0) ≡ false = ground (arith, lt) in
      let here : (b.pos == 0) ≡ false = ground (arith, p) in
      rw y (record {
        whole = refl;
        settled = tt;
        starts = p;
        writable = ((le, e), lt, rs);
        rooms = omega arith;
        mark = rw (some_room, here) refl;
      })
]

put_lem :
    (b : Buffer) (bs back : List Buffer)
    → AllData (b ∷ bs)
    → AllReserved back
    → Put (b ∷ bs) back (put_before (b ∷ bs) back)
unfolding put_before last_room Settled
put_lem b [] back (s, p, h) rs = single_chain b back s p rs
put_lem b (c ∷ bs) back (s, p, h) rs =
    let i = put_lem c bs back h rs in
    record {
      whole = ap (λ k. b ∷ k) i.whole;
      settled = (s, p, inr i.starts, i.settled);
      starts = p;
      writable = i.writable;
      rooms = i.rooms;
      mark = i.mark;
    }

-- The stream that WriteRef() makes
joined-IsStream :
    (s : BufferStream) (front : List Buffer) (b : Buffer) (bs back old : List Buffer) (wsize : ℕ)
    → Settled front old
    → AllData (b ∷ bs)
    → AllReserved back
    → s.rsize ≡ length (contents front)
    → wsize ≡ room_of back
    → IsStream (joined s front (b ∷ bs) back wsize)
      × (bytes_of (joined s front (b ∷ bs) back wsize) ≡ contents front ++ contents (b ∷ bs))
unfolding joined bytes_of read_end size_of
joined-IsStream s front b bs back old wsize h d rs r w =
    let chain = b ∷ bs in
    let parts = put_before chain back in
    let i = put_lem b bs back d rs in
    let same : contents (front ++ parts.0 ++ parts.1) ≡ contents front ++ contents chain =
      ap contents (append_assoc front parts.0 parts.1)
      ∙ rw
          (
            i.whole,
            contents-append front (chain ++ back),
            contents-append chain back,
            contents-reserved back rs,
          )
          (ap (λ k. contents front ++ k) (append-nil (contents chain))) in
    let size : s.rsize + size_of chain ≡ length (contents (front ++ parts.0 ++ parts.1)) = omega (
      arith,
      r,
      size_of-contents chain d,
      length-append (contents front) (contents chain),
      ap length same,
    ) in
    let some_read : (s.rsize + size_of chain == 0) ≡ false = ground (arith, d.1) in
    (
      record {
        settled =
            Settled-append front parts.0 parts.1
              (Settled-grow front old (parts.0 ++ parts.1) h (λ q. i.starts)) i.settled;
        writable = i.writable;
        reads = size;
        writes = omega (arith, w, i.rooms);
        marks = rw some_read i.mark;
      },
      same,
    )

abbrev pub Referred : Option BufferStream → List ℕ → List ℕ → Type 0
Referred r old new = (s : BufferStream) × (r ≡ some s) × IsStream s × (bytes_of s ≡ old ++ new)

-- a stream joined where all its bytes stand before the write position
pub join_lem :
    (s : BufferStream) (front : List Buffer) (b : Buffer) (bs back old : List Buffer) (wsize : ℕ)
    → Settled front old
    → AllData (b ∷ bs)
    → AllReserved back
    → s.rsize ≡ length (contents (front ++ back))
    → wsize ≡ room_of back
    → Referred
        (some (joined s front (b ∷ bs) back wsize))
        (contents (front ++ back))
        (contents (b ∷ bs))
join_lem s front b bs back old wsize h d rs r w =
    let same : contents (front ++ back) ≡ contents front =
      contents-append front back ∙ rw (contents-reserved back rs) (append-nil (contents front)) in
    let (i, c) = joined-IsStream s front b bs back old wsize h d rs (r ∙ ap length same) w in
    (joined s front (b ∷ bs) back wsize, refl, i, c ∙ ap (λ k. k ++ contents (b ∷ bs)) (sym same))
