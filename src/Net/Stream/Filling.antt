-- ===== src/Net/Stream/Filling.antt =====
-- What PropagateWritePos() does to a stream whose buffers have been written to.
use serverbox.Prelude.{
  ℕ, ◌+◌, ◌-◌, ◌≤◌, ◌<◌, ◌≡◌, refl, sym, ap, ◌∙◌, true, Option, some, List, [], ◌∷◌, ◌++◌, arith,
  leb, length, take, drop, length-append, length-take, length-drop, append_assoc,
}
use serverbox.Net.Buffer.{Buffer, room}
use serverbox.Net.Buffer.Contents.{room_of, AllReserved, contents, contents-append}
use serverbox.Net.Stream.{BufferStream, settle_wpos, propagate_write_pos}
use serverbox.Net.Stream.Shape.{IsOpen, bytes_of, IsStream, Settled-grow, Settled-append}
use serverbox.Net.Stream.Passing.{spares, Passed, pass_lem}
use serverbox.Net.Stream.Settling.{full-Settled, first_pos-full, Ends, settle_wpos_lem}

-- the stream between the two parts of PropagateWritePos()
abbrev stepped : BufferStream → List Buffer → ℕ → BufferStream
stepped s passed size = record s {
  front = s.front ++ passed;
  rsize = s.rsize + size;
  wsize = s.wsize - size;
}

passed_lem :
    (s : BufferStream) (back : List Buffer) (r : Option (List Buffer × List Buffer)) (size : ℕ)
    (passed : List Buffer) (v : Buffer) (more : List Buffer)
    → IsStream (record s { back = back })
    → size ≤ s.wsize
    → size ≤ length (spares back)
    → Passed r back size passed v more
    → Ends
        (settle_wpos (stepped s passed size) (v ∷ more))
        (bytes_of (record s { back = back }) ++ take size (spares back))
unfolding bytes_of
passed_lem s back r size passed v more i le long c =
    let new = take size (spares back) in
    let old = contents (s.front ++ back) in
    let same : contents (s.front ++ passed ++ (v ∷ more)) ≡ old ++ new =
      rw
        (
          append_assoc s.front passed (v ∷ more),
          contents-append s.front (passed ++ (v ∷ more)),
          c.filled,
          contents-append s.front back,
        )
        (sym (append_assoc (contents s.front) (contents back) new)) in
    let shape =
      Settled-append s.front passed (v ∷ more)
        (Settled-grow s.front back (passed ++ (v ∷ more)) i.settled
          (λ q. first_pos-full passed v more c.full c.has_data))
        (full-Settled passed (v ∷ more) c.full) in
    let (s1, e1, i1, c1) =
      settle_wpos_lem (stepped s passed size) v more shape c.sound c.has_data c.reserved
        (omega (arith, i.writes, c.less_room))
        (omega (
          arith,
          i.reads,
          ap length same,
          length-append old new,
          length-take size (spares back),
          long,
        )) in
    (s1, e1, i1, c1 ∙ same)

reserved-spares : (bs : List Buffer) → AllReserved bs → length (spares bs) ≡ room_of bs
unfolding spares room
reserved-spares [] h = refl
reserved-spares (b ∷ bs) (z, p, s, h) = omega (
  arith,
  length-append (drop b.pos b.bytes) (spares bs),
  length-drop b.pos b.bytes,
  s.1,
  reserved-spares bs h,
)

room-spares : (bs : List Buffer) → IsOpen bs → length (spares bs) ≡ room_of bs
unfolding IsOpen spares room
room-spares [] h = refl
room-spares (w ∷ rest) (s, lt, rs) = omega (
  arith,
  length-append (drop w.pos w.bytes) (spares rest),
  length-drop w.pos w.bytes,
  s.1,
  reserved-spares rest rs,
)

propagate_at :
    (s : BufferStream) (back : List Buffer) (size : ℕ)
    → IsStream (record s { back = back })
    → 0 < size
    → size ≤ s.wsize
    → Ends
        (propagate_write_pos (record s { back = back }) size)
        (bytes_of (record s { back = back }) ++ take size (spares back))
unfolding propagate_write_pos settle_wpos
propagate_at s [] size i p le = absurd (omega (arith, p, le, i.writes))
propagate_at s (w ∷ rest) size i p le =
    let (passed, v, more, c) = pass_lem rest w size p (omega (arith, le, i.writes)) i.writable in
    let fits : leb size s.wsize ≡ true = ground (arith, le) in
    let room_enough = room-spares (w ∷ rest) i.writable in
    rw (fits, c.answer)
      (passed_lem s (w ∷ rest) _ size passed v more i le (omega (arith, room_enough, le, i.writes))
        c)

-- PropagateWritePos() of some bytes, no more than there is room for: it makes exactly the first of
-- the memory behind the write position readable, behind the bytes that were so before, fails no
-- assertion, and keeps the stream well-formed.
pub propagate_write_pos_correct :
    (s : BufferStream) (size : ℕ)
    → IsStream s
    → 0 < size
    → size ≤ s.wsize
    → (s' : BufferStream) × (propagate_write_pos s size ≡ some s')
      × IsStream s'
      × (bytes_of s' ≡ bytes_of s ++ take size (spares s.back))
propagate_write_pos_correct s size i p le = propagate_at s s.back size i p le
