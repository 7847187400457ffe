-- ===== src/Net/Stream/Referring.antt =====
-- What WriteRef() does to the bytes and to the shape of a stream.
use serverbox.Prelude.{
  ℕ, ◌-◌, ◌<◌, ◌≡◌, refl, sym, ap, ◌∙◌, inl, inr, true, false, ◌&&◌, none, some, List, [], ◌∷◌,
  ◌++◌, arith, ltb, ◌==◌, Bool-cases, length, length-append, append-nil, append_assoc,
}
use serverbox.Net.Buffer.{Buffer, room}
use serverbox.Net.Buffer.Contents.{readable, contents, length-readable}
use serverbox.Net.Stream.{BufferStream, is_unset, before_wpos, at_wpos}
use serverbox.Net.Stream.Shape.{
  Settled, IsOpen, read_end, bytes_of, IsStream, Settled-grow, Settled-append, contents-reserved,
}
use serverbox.Net.Stream.Linking.{joined, link_at, write_ref_at, write_ref}
use serverbox.Net.Stream.Popping.{open-AllReserved}
use serverbox.Net.Stream.Appending.{ends_full-Settled}
use serverbox.Net.Stream.Joining.{AllData, Referred, join_lem}

link_null :
    (s : BufferStream) (front : List Buffer) (b : Buffer) (bs : List Buffer)
    → IsStream (record s { front = front; back = [] })
    → AllData (b ∷ bs)
    → Referred
        (write_ref_at (record s { front = front; back = [] }) (b ∷ bs) [])
        (contents (front ++ []))
        (contents (b ∷ bs))
unfolding write_ref_at bytes_of contents read_end joined
link_null s [] b bs i d =
    let no_room : (s.wsize == 0) ≡ true = ground (arith, i.writes) in
    let no_bytes : (s.rsize == 0) ≡ true = ground (arith, i.reads) in
    let nothing : s.rend ≡ none = i.marks ∙ rw no_bytes refl in
    let unset : is_unset s.rend ≡ true = ap is_unset nothing in
    rw (no_room, no_bytes, unset) (join_lem s [] b bs [] [] 0 i.settled d tt i.reads refl)
link_null s (c ∷ cs) b bs i d =
    let no_room : (s.wsize == 0) ≡ true = ground (arith, i.writes) in
    rw (no_room, ends_full-Settled c cs i.settled)
      (join_lem s (c ∷ cs) b bs [] [] 0 i.settled d tt i.reads refl)

-- by the place of the read end
link_head :
    (s : BufferStream) (front : List Buffer) (w : Buffer) (rest : List Buffer) (b : Buffer)
    (bs : List Buffer)
    → IsStream (record s { front = front; back = w ∷ rest })
    → AllData (b ∷ bs)
    → s.rsize ≡ 0
    → Referred
        (link_at (record s { front = front; back = w ∷ rest }) (b ∷ bs) w rest none)
        (contents (front ++ (w ∷ rest)))
        (contents (b ∷ bs))
unfolding link_at bytes_of IsOpen joined contents Settled
link_head s [] w rest b bs i d z =
    let no_bytes : (s.rsize == 0) ≡ true = ground (arith, z) in
    let no_pos : w.pos ≡ 0 = omega (
      arith,
      z,
      i.reads,
      length-append (readable w) (contents rest),
      length-readable w i.writable.0,
    ) in
    let rs = open-AllReserved (w ∷ rest) i.writable no_pos in
    rw no_bytes (join_lem s [] b bs (w ∷ rest) (w ∷ rest) s.wsize i.settled d rs i.reads i.writes)
link_head s (c ∷ cs) w rest b bs i d z = absurd (
    omega (
      arith,
      z,
      i.reads,
      length-append (readable c) (contents (cs ++ (w ∷ rest))),
      length-readable c i.settled.0,
      i.settled.1,
    ))

link_before :
    (s : BufferStream) (front : List Buffer) (w : Buffer) (rest : List Buffer) (b : Buffer)
    (bs : List Buffer)
    → IsStream (record s { front = front; back = w ∷ rest })
    → AllData (b ∷ bs)
    → 0 < s.rsize
    → w.pos ≡ 0
    → Referred
        (link_at (record s { front = front; back = w ∷ rest }) (b ∷ bs) w rest (some before_wpos))
        (contents (front ++ (w ∷ rest)))
        (contents (b ∷ bs))
unfolding link_at bytes_of joined
link_before s [] w rest b bs i d p z =
    let rs = open-AllReserved (w ∷ rest) i.writable z in
    absurd (omega (arith, p, i.reads, ap length (contents-reserved (w ∷ rest) rs)))
link_before s (c ∷ cs) w rest b bs i d p z =
    let rs = open-AllReserved (w ∷ rest) i.writable z in
    let no_pos : ltb 0 w.pos ≡ false = ground (arith, z) in
    rw no_pos
      (join_lem s (c ∷ cs) b bs (w ∷ rest) (w ∷ rest) s.wsize i.settled d rs i.reads i.writes)

link_behind :
    (s : BufferStream) (w : Buffer) (rest : List Buffer) (b : Buffer) (bs : List Buffer)
    → IsStream (record s { back = w ∷ rest })
    → AllData (b ∷ bs)
    → 0 < w.pos
    → Referred
        (link_at (record s { back = w ∷ rest }) (b ∷ bs) w rest (some at_wpos))
        (contents (s.front ++ (w ∷ rest)))
        (contents (b ∷ bs))
unfolding link_at bytes_of joined IsOpen Settled
link_behind s w rest b bs i d p =
    let here : ltb 0 w.pos ≡ true = ground (arith, p) in
    let shape =
      Settled-append s.front (w ∷ []) (b ∷ bs)
        (Settled-grow s.front (w ∷ rest) (w ∷ b ∷ bs) i.settled (λ q. q))
        (i.writable.0, p, inr d.1, tt) in
    let same = append_assoc s.front (w ∷ []) rest in
    rw here (
      rw (sym same) (
        join_lem s (s.front ++ (w ∷ [])) b bs rest (b ∷ bs) (s.wsize - room w) shape d i.writable.2
          (i.reads ∙ ap (λ k. length (contents k)) (sym same)) (omega (arith, i.writes))))

by_link :
    (s : BufferStream) (w : Buffer) (rest : List Buffer) (b : Buffer) (bs : List Buffer)
    → (ltb 0 s.wsize && ltb w.pos w.capacity) ≡ true
    → write_ref_at (record s { back = w ∷ rest }) (b ∷ bs) (w ∷ rest)
      ≡ link_at (record s { back = w ∷ rest }) (b ∷ bs) w rest s.rend
unfolding write_ref_at
by_link s w rest b bs e = rw e refl

mark_none : (rsize pos : ℕ) → (rsize == 0) ≡ true → read_end rsize pos ≡ none
unfolding read_end
mark_none rsize pos y = rw y refl

mark_before :
    (rsize pos : ℕ)
    → (rsize == 0) ≡ false
    → (pos == 0) ≡ true
    → read_end rsize pos ≡ some before_wpos
unfolding read_end
mark_before rsize pos y z = rw (y, z) refl

mark_at :
    (rsize pos : ℕ) → (rsize == 0) ≡ false → (pos == 0) ≡ false → read_end rsize pos ≡ some at_wpos
unfolding read_end
mark_at rsize pos y z = rw (y, z) refl

write_ref_by :
    (s : BufferStream) (back : List Buffer) (b : Buffer) (bs : List Buffer)
    → IsStream (record s { back = back })
    → AllData (b ∷ bs)
    → Referred
        (write_ref_at (record s { back = back }) (b ∷ bs) back)
        (bytes_of (record s { back = back }))
        (contents (b ∷ bs))
unfolding bytes_of IsOpen room
write_ref_by s [] b bs i d = link_null s s.front b bs i d
write_ref_by s (w ∷ rest) b bs i d =
    let s1 = record s { back = w ∷ rest } in
    let link = link_at s1 (b ∷ bs) w rest in
    let opened : (ltb 0 s.wsize && ltb w.pos w.capacity) ≡ true =
      ground (arith, i.writes, i.writable.1) in
    let open_link : write_ref_at s1 (b ∷ bs) (w ∷ rest) ≡ link s.rend =
      by_link s w rest b bs opened in
    elim (Bool-cases (s.rsize == 0)) [
      | inl y ↦
          let place : s.rend ≡ none = i.marks ∙ mark_none s.rsize w.pos y in
          rw (open_link ∙ ap link place) (link_head s s.front w rest b bs i d (ground (arith, y)))
      | inr y ↦ elim (Bool-cases (w.pos == 0)) [
        | inl z ↦
            let place : s.rend ≡ some before_wpos = i.marks ∙ mark_before s.rsize w.pos y z in
            rw (open_link ∙ ap link place)
              (link_before s s.front w rest b bs i d (ground (arith, y)) (ground (arith, z)))
        | inr z ↦
            let place : s.rend ≡ some at_wpos = i.marks ∙ mark_at s.rsize w.pos y z in
            rw (open_link ∙ ap link place) (link_behind s w rest b bs i d (ground (arith, z)))
      ]
    ]

-- WriteRef() of a chain of buffers with data puts their bytes behind those of the stream, without a
-- copy. It fails no assertion and keeps the stream well-formed, whatever buffers are reserved.
pub write_ref_correct :
    (s : BufferStream) (chain : List Buffer)
    → IsStream s
    → AllData chain
    → (s' : BufferStream) × (write_ref s chain ≡ some s')
      × IsStream s'
      × (bytes_of s' ≡ bytes_of s ++ contents chain)
unfolding write_ref contents
write_ref_correct s [] i d = (s, refl, i, sym (append-nil (bytes_of s)))
write_ref_correct s (b ∷ bs) i d = write_ref_by s s.back b bs i d
