-- ===== src/Net/Stream/Shape.antt =====
-- The invariant of a stream, which PrivCheck() of src/mg/net/Buffer.cpp checks in a debug build, and
-- the bytes that a stream holds.
use serverbox.Prelude.{
  ℕ, ◌+◌, ◌<◌, ◌≡◌, refl, sym, ap, ◌∙◌, subst, ◌⊎◌, inl, inr, Option, none, some, List, [], ◌∷◌,
  ◌++◌, arith, ◌==◌, if◌then◌else◌, length, take, append_assoc,
}
use serverbox.Net.Buffer.{Buffer}
use serverbox.Net.Buffer.Contents.{IsSound, room_of, AllReserved, readable, contents}
use serverbox.Net.Stream.{ReadEnd, BufferStream, empty_stream, before_wpos, at_wpos}

-- The position of the first buffer
abbrev pub first_pos : List Buffer → ℕ
first_pos [] = 0
first_pos (b ∷ bs) = b.pos

-- The buffers before the write position have data, and one that is not full is followed by data.
unfoldable pub Settled : List Buffer → List Buffer → Type 0
Settled [] back = Unit
Settled (b ∷ bs) back =
    IsSound b
    × (0 < b.pos)
    × ((b.pos ≡ b.capacity) ⊎ (0 < first_pos (bs ++ back)))
    × Settled bs back

-- The buffer at the write position has room, and those behind it are empty.
unfoldable pub IsOpen : List Buffer → Type 0
IsOpen [] = Unit
IsOpen (w ∷ rest) = IsSound w × (w.pos < w.capacity) × AllReserved rest

-- `myREnd` is null if there is nothing to read.
unfoldable pub read_end : ℕ → ℕ → Option ReadEnd
read_end rsize pos =
    if rsize == 0 then none else if pos == 0 then some before_wpos else some at_wpos

unfoldable pub bytes_of : BufferStream → List ℕ
bytes_of s = contents (s.front ++ s.back)

pub record IsStream (s : BufferStream) : Type 0 where
  pub settled : Settled s.front s.back
  pub writable : IsOpen s.back
  pub reads : s.rsize ≡ length (bytes_of s)
  pub writes : s.wsize ≡ room_of s.back
  pub marks : s.rend ≡ read_end s.rsize (first_pos s.back)

pub empty_stream-IsStream : IsStream empty_stream
unfolding empty_stream Settled IsOpen bytes_of contents read_end
empty_stream-IsStream = record {
  settled = tt;
  writable = tt;
  reads = refl;
  writes = refl;
  marks = refl;
}

pub room_of-append : (bs cs : List Buffer) → room_of (bs ++ cs) ≡ room_of bs + room_of cs
room_of-append [] cs = omega arith
room_of-append (b ∷ bs) cs = omega (arith, room_of-append bs cs)

pub Settled-grow :
    (bs back back' : List Buffer)
    → Settled bs back
    → (0 < first_pos back → 0 < first_pos back')
    → Settled bs back'
unfolding Settled
Settled-grow [] back back' h f = tt
Settled-grow (b ∷ []) back back' (s, p, inl e, h) f = (s, p, inl e, tt)
Settled-grow (b ∷ []) back back' (s, p, inr lt, h) f = (s, p, inr (f lt), tt)
Settled-grow (b ∷ c ∷ bs) back back' (s, p, n, h) f =
    (s, p, n, Settled-grow (c ∷ bs) back back' h f)

pub Settled-append :
    (bs cs back : List Buffer) → Settled bs (cs ++ back) → Settled cs back → Settled (bs ++ cs) back
unfolding Settled
Settled-append [] cs back h k = k
Settled-append (b ∷ bs) cs back (s, p, n, h) k = (
  s,
  p,
  subst (λ r. (b.pos ≡ b.capacity) ⊎ (0 < first_pos r)) (sym (append_assoc bs cs back)) n,
  Settled-append bs cs back h k,
)

pub contents-reserved : (bs : List Buffer) → AllReserved bs → contents bs ≡ []
unfolding contents readable
contents-reserved [] h = refl
contents-reserved (b ∷ bs) (z, p, s, h) =
    ap (λ n. take n b.bytes ++ contents bs) z ∙ contents-reserved bs h
