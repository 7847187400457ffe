-- ===== src/Net/Stream/Draining.antt =====
-- What ReadData() does to the bytes and to the shape of a stream.
use serverbox.Prelude.{
  ℕ, zero, suc, ◌-◌, ◌≤◌, ◌≡◌, refl, sym, ap, ◌∙◌, ◌⊎◌, inl, inr, true, false, ◌&&◌, not, Option,
  none, some, List, [], ◌∷◌, ◌++◌, arith, leb, ◌==◌, if◌then◌else◌, Bool-cases, length, take, drop,
  length-append, length-drop, take-append_short, drop-append_long, take_all,
}
use serverbox.Net.Buffer.{Buffer, room}
use serverbox.Net.Buffer.Contents.{no_data, room_of, readable, contents, length-readable}
use serverbox.Net.Stream.{ReadEnd, BufferStream, empty_stream, is_empty}
use serverbox.Net.Stream.Shape.{
  first_pos, Settled, IsOpen, read_end, bytes_of, IsStream, empty_stream-IsStream,
}
use serverbox.Net.Stream.Reading.{read_bytes, rejoin, drop_empty_head, check_read, read_data}
use serverbox.Net.Stream.Cutting.{IsCut, ReadFrom, read_front}

pub rejoin_lem :
    (s : BufferStream) (front back : List Buffer)
    → length back ≡ length s.back
    → rejoin s (front ++ back) ≡ some (record s { front = front; back = back })
unfolding rejoin
rejoin_lem s front back e =
    let total = length-append front back in
    let kept : leb (length s.back) (length (front ++ back)) ≡ true = ground (arith, total, e) in
    let before : length (front ++ back) - length s.back ≡ length front = omega (arith, total, e) in
    let first : take (length front) (front ++ back) ≡ front =
      take-append_short (length front) front back (omega arith) ∙ take_all front in
    let none_more : length front - length front ≡ 0 = omega arith in
    let behind : drop (length front) (front ++ back) ≡ back =
      drop-append_long (length front) front back (omega arith) ∙ ap (λ n. drop n back) none_more in
    rw (kept, before, first, behind) refl

-- The fields of a stream that has been cut
abbrev pub cut_stream : List Buffer → List Buffer → ℕ → ℕ → Option ReadEnd → BufferStream
cut_stream front back rsize wsize rend = record {
  front = front;
  back = back;
  rsize = rsize;
  wsize = wsize;
  rend = rend;
}

-- the head goes, and with it the last buffer, maybe
head_gone :
    (bs back : List Buffer) (rsize wsize : ℕ) (rend : Option ReadEnd) {old : List ℕ}
    → Settled bs back
    → IsOpen back
    → rsize ≡ length (contents (bs ++ back))
    → wsize ≡ room_of back
    → rend ≡ read_end rsize (first_pos back)
    → old ≡ contents (bs ++ back)
    → (s : BufferStream) × ((if not (is_empty bs && is_empty back)
          then some (cut_stream bs back rsize wsize rend)
          else if wsize == 0
          then some empty_stream
          else none)
        ≡ some s)
      × IsStream s
      × (bytes_of s ≡ old)
unfolding bytes_of empty_stream
head_gone [] [] rsize wsize rend h o r w m c =
    let no_room : (wsize == 0) ≡ true = ground (arith, w) in
    (empty_stream, rw no_room refl, empty_stream-IsStream, sym c)
head_gone [] (x ∷ back) rsize wsize rend h o r w m c = (
  cut_stream [] (x ∷ back) rsize wsize rend,
  refl,
  record { settled = h; writable = o; reads = r; writes = w; marks = m },
  sym c,
)
head_gone (b ∷ bs) back rsize wsize rend h o r w m c = (
  cut_stream (b ∷ bs) back rsize wsize rend,
  refl,
  record { settled = h; writable = o; reads = r; writes = w; marks = m },
  sym c,
)

drop_empty_head_lem :
    (front back : List Buffer) (rsize wsize : ℕ) (rend : Option ReadEnd)
    → IsCut front back
    → IsOpen back
    → rsize ≡ length (contents (front ++ back))
    → wsize ≡ room_of back
    → rend ≡ read_end rsize (first_pos back)
    → (s : BufferStream) × (drop_empty_head (cut_stream front back rsize wsize rend) front ≡ some s)
      × IsStream s
      × (bytes_of s ≡ contents (front ++ back))
unfolding drop_empty_head IsCut Settled bytes_of contents
drop_empty_head_lem [] back rsize wsize rend h o r w m = (
  cut_stream [] back rsize wsize rend,
  refl,
  record { settled = tt; writable = o; reads = r; writes = w; marks = m },
  refl,
)
drop_empty_head_lem (b ∷ bs) back rsize wsize rend (s, n, h) o r w m =
    let gone : b.pos ≡ 0 → contents (b ∷ (bs ++ back)) ≡ contents (bs ++ back) =
      λ z. ap (λ k. k ++ contents (bs ++ back)) (no_data b z) in
    elim (Bool-cases (b.pos == 0)) [
      | inl y ↦ rw y (
          head_gone bs back rsize wsize rend h o (r ∙ ap length (gone (ground (arith, y)))) w m
            (gone (ground (arith, y))))
      | inr y ↦ rw y (
        cut_stream (b ∷ bs) back rsize wsize rend,
        refl,
        record {
          settled = (s, ground (arith, y), n, h);
          writable = o;
          reads = r;
          writes = w;
          marks = m;
        },
        refl,
      )
    ]

pub check_read_lem :
    (front back : List Buffer) (s : BufferStream)
    → IsStream (record s { front = front; back = back })
    → check_read (record s { front = front; back = back })
      ≡ some (record s { front = front; back = back })
unfolding check_read Settled IsOpen bytes_of contents room
check_read_lem [] [] s i = refl
check_read_lem [] (w ∷ rest) s i =
    let more : ((s.rsize == 0) && (s.wsize == 0)) ≡ false =
      ground (arith, i.writes, i.writable.1) in
    rw more refl
check_read_lem (b ∷ bs) back s i =
    let more : (s.rsize == 0) ≡ false = ground (
      arith,
      i.reads,
      length-append (readable b) (contents (bs ++ back)),
      length-readable b i.settled.0,
      i.settled.1,
    ) in
    rw more refl

-- the read end after a read
cut_mark :
    (rend : Option ReadEnd) (rsize left pos pos' : ℕ)
    → rend ≡ read_end rsize pos
    → left ≤ rsize
    → ((pos' == 0) ≡ (pos == 0)) ⊎ (left ≡ 0)
    → (if left == 0 then none else rend) ≡ read_end left pos'
unfolding read_end
cut_mark rend rsize left pos pos' m le same = elim (Bool-cases (left == 0)) [
  | inl y ↦ rw y refl
  | inr y ↦
      let some_before : (rsize == 0) ≡ false = ground (arith, le, y) in
      let same_test : (pos' == 0) ≡ (pos == 0) = elim same [
        | inl e ↦ e
        | inr e ↦ absurd (ground (arith, e, y))
      ] in
      rw (y, same_test) (m ∙ rw some_before refl)
]

-- a stream that has been read from, up to the step over its head
pub read_cut :
    (s : BufferStream) (size : ℕ) (r : Option (List ℕ × List Buffer)) (f b : List Buffer)
    → IsStream s
    → size ≤ s.rsize
    → ReadFrom r size (bytes_of s) s.back f b
    → (s1 : BufferStream) × (drop_empty_head
          (cut_stream f b (s.rsize - size) s.wsize (if s.rsize - size == 0 then none else s.rend))
          f
        ≡ some s1)
      × IsStream s1
      × (bytes_of s1 ≡ drop size (bytes_of s))
read_cut s size r f b i le c =
    let size_left : s.rsize - size ≡ length (drop size (bytes_of s)) =
      omega (arith, i.reads, length-drop size (bytes_of s)) in
    let same : ((first_pos b == 0) ≡ (first_pos s.back == 0)) ⊎ (s.rsize - size ≡ 0) =
      elim c.same_mark [ inl e ↦ inl e | inr e ↦ inr (size_left ∙ e) ] in
    let (s1, e1, i1, c1) =
      drop_empty_head_lem f b (s.rsize - size) s.wsize
        (if s.rsize - size == 0 then none else s.rend) c.head_cut c.still_open
        (size_left ∙ sym (ap length c.left)) (i.writes ∙ sym c.same_room)
        (cut_mark s.rend s.rsize (s.rsize - size) (first_pos s.back) (first_pos b) i.marks
          (omega arith) same) in
    (s1, e1, i1, c1 ∙ c.left)

-- ReadData() of no more bytes than a stream holds takes them out at its head, the first ones first,
-- and keeps it well-formed.
pub read_data_correct :
    (s : BufferStream) (size : ℕ)
    → IsStream s
    → size ≤ s.rsize
    → (s' : BufferStream) × (read_data s size ≡ some (take size (bytes_of s), s'))
      × IsStream s'
      × (bytes_of s' ≡ drop size (bytes_of s))
unfolding read_data bytes_of
read_data_correct s zero i le = (s, refl, i, refl)
read_data_correct s (suc n) i le =
    let (f, b, r) =
      read_front s.front s.back (suc n) (omega arith) i.settled i.writable
        (omega (arith, i.reads, le)) in
    let left = s.rsize - suc n in
    let rend = if left == 0 then none else s.rend in
    let fits : leb (suc n) s.rsize ≡ true = ground (arith, le) in
    let (s1, e1, i1, c1) = read_cut s (suc n) (read_bytes (s.front ++ s.back) (suc n)) f b i le r in
    (
      s1,
      rw
          (
            fits,
            r.answer,
            rejoin_lem (record s { rsize = left; rend = rend }) f b r.as_long,
            e1,
            check_read_lem s1.front s1.back s1 i1,
          )
          refl,
      i1,
      c1,
    )
