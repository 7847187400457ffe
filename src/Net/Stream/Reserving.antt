-- ===== src/Net/Stream/Reserving.antt =====
-- What EnsureWriteSize() does to a stream.
use serverbox.Prelude.{
  ℕ, zero, suc, ◌+◌, ◌≤◌, ◌<◌, ◌≡◌, refl, sym, ap, ◌∙◌, inl, inr, Bool, true, false, Option, some,
  List, [], ◌∷◌, ◌++◌, arith, ltb, leb, if◌then◌else◌, ltb→lt, leb→le, Bool-cases, ◌>>=◌, length,
  append-nil, append_assoc,
}
use serverbox.Net.Buffer.{Buffer, room, new_copy}
use serverbox.Net.Buffer.Contents.{
  room_of, AllReserved, readable, contents, contents-append, new_copy-IsSound,
}
use serverbox.Net.Stream.{
  BufferStream, is_empty, open_back, reserve_loop, check_wpos, ensure_write_size,
}
use serverbox.Net.Stream.Shape.{
  IsOpen, bytes_of, IsStream, room_of-append, Settled-grow, contents-reserved,
}
use serverbox.Net.Stream.Appending.{open_back_lem}

AllReserved-append :
    (bs cs : List Buffer) → AllReserved bs → AllReserved cs → AllReserved (bs ++ cs)
AllReserved-append [] cs h k = k
AllReserved-append (b ∷ bs) cs (z, p, s, h) k = (z, p, s, AllReserved-append bs cs h k)

new_copy-AllReserved : (copy_size : ℕ) → 0 < copy_size → AllReserved (new_copy copy_size ∷ [])
unfolding new_copy
new_copy-AllReserved copy_size c = (refl, c, new_copy-IsSound copy_size, tt)

room_of-new_copy : (copy_size : ℕ) → room_of (new_copy copy_size ∷ []) ≡ copy_size
unfolding new_copy room
room_of-new_copy copy_size = omega arith

-- What the loop adds
Reserved : Option BufferStream → BufferStream → ℕ → Type 0
Reserved r s size =
    (new : List Buffer) × (r
      ≡ some (record s { back = s.back ++ new; wsize = s.wsize + room_of new }))
    × AllReserved new
    × (size ≤ s.wsize + room_of new)

reserve_loop_lem :
    (copy_size fuel size : ℕ) (s : BufferStream)
    → 0 < copy_size
    → 0 < fuel
    → size ≤ s.wsize + fuel
    → Reserved (reserve_loop copy_size fuel size s) s size
unfolding reserve_loop Reserved
reserve_loop_lem copy_size zero size s c p h = elim p [ ]
reserve_loop_lem copy_size (suc fuel) size s c p h =
    let more = new_copy copy_size ∷ [] in
    let grown = record s { back = s.back ++ more; wsize = s.wsize + copy_size } in
    let added = room_of-new_copy copy_size in
    elim (Bool-cases (ltb (s.wsize + copy_size) size)) [
      | inr y ↦
          (more, rw (y, added) refl, new_copy-AllReserved copy_size c, ground (arith, y, added))
      | inl y ↦
          let lt = ltb→lt (s.wsize + copy_size) size y in
          let (new, e, r, le) =
            reserve_loop_lem copy_size fuel size grown c (omega (arith, lt, h, c))
              (omega (arith, lt, h, c)) in
          let all = room_of-append more new in
          let sum : s.wsize + copy_size + room_of new ≡ s.wsize + room_of (more ++ new) =
            omega (arith, all, added) in
          (
            more ++ new,
            rw (y, e, sum, append_assoc s.back more new) refl,
            AllReserved-append more new (new_copy-AllReserved copy_size c) r,
            omega (arith, le, sum),
          )
    ]

-- a stream with more buffers reserved
reserved-IsStream :
    (s : BufferStream) (w : Buffer) (rest new : List Buffer)
    → IsStream (record s { back = w ∷ rest })
    → AllReserved new
    → IsStream (record s { back = w ∷ rest ++ new; wsize = s.wsize + room_of new })
      × (bytes_of (record s { back = w ∷ rest ++ new }) ≡ bytes_of (record s { back = w ∷ rest }))
unfolding IsOpen bytes_of
reserved-IsStream s w rest new i r =
    let same : contents (s.front ++ (w ∷ rest ++ new)) ≡ contents (s.front ++ (w ∷ rest)) =
      rw
        (
          sym (append_assoc s.front (w ∷ rest) new),
          contents-append (s.front ++ (w ∷ rest)) new,
          contents-reserved new r,
        )
        (append-nil (contents (s.front ++ (w ∷ rest)))) in
    (
      record {
        settled = Settled-grow s.front (w ∷ rest) (w ∷ rest ++ new) i.settled (λ p. p);
        writable = (i.writable.0, i.writable.1, AllReserved-append rest new i.writable.2 r);
        reads = i.reads ∙ sym (ap length same);
        writes = ap (λ n. n + room_of new) i.writes ∙ sym (room_of-append (w ∷ rest) new);
        marks = i.marks;
      },
      same,
    )

check_wpos_lem :
    (s : BufferStream) (w : Buffer) (rest : List Buffer)
    → w.pos < w.capacity
    → check_wpos (record s { back = w ∷ rest }) ≡ some (record s { back = w ∷ rest })
unfolding check_wpos
check_wpos_lem s w rest h = let e : ltb w.pos w.capacity ≡ true = ground (arith, h) in rw e refl

abbrev Ensured : Option BufferStream → BufferStream → ℕ → Type 0
Ensured r s size =
    (s' : BufferStream) × (r ≡ some s')
    × IsStream s'
    × (bytes_of s' ≡ bytes_of s)
    × (size ≤ s'.wsize)

-- the loop, and the assertion behind it
reserve_more :
    (copy_size size : ℕ) (s : BufferStream) (w : Buffer) (rest : List Buffer)
    → 0 < copy_size
    → s.wsize < size
    → IsStream (record s { back = w ∷ rest })
    → Ensured
        (reserve_loop copy_size size size (record s { back = w ∷ rest }) >>= check_wpos)
        (record s { back = w ∷ rest })
        size
unfolding Reserved IsOpen bytes_of
reserve_more copy_size size s w rest c lt i =
    let (new, e, r, le) =
      reserve_loop_lem copy_size size size (record s { back = w ∷ rest }) c (omega (arith, lt))
        (omega arith) in
    let (i2, same) = reserved-IsStream s w rest new i r in
    (
      record s { back = w ∷ rest ++ new; wsize = s.wsize + room_of new },
      rw e (
          check_wpos_lem (record s { wsize = s.wsize + room_of new }) w (rest ++ new) i.writable.1),
      i2,
      same,
      le,
    )

-- a stream with a buffer added to write to
opened-IsStream :
    (copy_size : ℕ) (s : BufferStream)
    → 0 < copy_size
    → IsStream (record s { back = [] })
    → IsStream (record s { back = new_copy copy_size ∷ []; wsize = copy_size })
      × (bytes_of (record s { back = new_copy copy_size ∷ [] }) ≡ bytes_of (record s { back = [] }))
unfolding IsOpen bytes_of contents readable new_copy room
opened-IsStream copy_size s c i =
    let w = new_copy copy_size in
    let same : contents (s.front ++ (w ∷ [])) ≡ contents (s.front ++ []) =
      contents-append s.front (w ∷ []) ∙ sym (contents-append s.front []) in
    (
      record {
        settled = Settled-grow s.front [] (w ∷ []) i.settled (λ lt. elim lt [ ]);
        writable = (new_copy-IsSound copy_size, c, tt);
        reads = i.reads ∙ sym (ap length same);
        writes = omega arith;
        marks = i.marks;
      },
      same,
    )

-- what is done when the room is not enough
abbrev grow : ℕ → ℕ → BufferStream → Bool → Option BufferStream
grow copy_size size s true = open_back copy_size s >>= λ s1.
    if leb size s1.wsize then some s1 else (reserve_loop copy_size size size s1 >>= check_wpos)
grow copy_size size s false = reserve_loop copy_size size size s >>= check_wpos

grow_lem :
    (copy_size size : ℕ) (s : BufferStream) (back : List Buffer)
    → 0 < copy_size
    → IsStream (record s { back = back })
    → s.wsize < size
    → Ensured
        (grow copy_size size (record s { back = back }) (is_empty back))
        (record s { back = back })
        size
unfolding bytes_of
grow_lem copy_size size s (w ∷ rest) c i lt = reserve_more copy_size size s w rest c lt i
grow_lem copy_size size s [] c i lt =
    let (i2, same) = opened-IsStream copy_size s c i in
    let w = new_copy copy_size in
    rw (open_back_lem copy_size s s.front i) (elim (Bool-cases (leb size copy_size)) [
      | inl z ↦
          rw z
            (record s { back = w ∷ []; wsize = copy_size }, refl, i2, same, leb→le size copy_size z)
      | inr z ↦
          let (s1, e1, i1, c1, le) =
            reserve_more copy_size size (record s { wsize = copy_size }) w [] c (ground (arith, z))
              i2 in
          rw z (s1, e1, i1, c1 ∙ same, le)
    ])

grown :
    (copy_size size : ℕ) (s : BufferStream) (b : Bool)
    → (if b
        then (open_back copy_size s >>= λ s1.
            if leb size s1.wsize
            then some s1
            else (reserve_loop copy_size size size s1 >>= check_wpos))
        else (reserve_loop copy_size size size s >>= check_wpos))
      ≡ grow copy_size size s b
grown copy_size size s true = refl
grown copy_size size s false = refl

-- EnsureWriteSize() reserves at least the room asked for. It changes no bytes, fails no assertion,
-- and keeps the stream well-formed.
pub ensure_write_size_correct :
    (copy_size : ℕ) (s : BufferStream) (size : ℕ)
    → 0 < copy_size
    → IsStream s
    → (s' : BufferStream) × (ensure_write_size copy_size s size ≡ some s')
      × IsStream s'
      × (bytes_of s' ≡ bytes_of s)
      × (size ≤ s'.wsize)
unfolding ensure_write_size
ensure_write_size_correct copy_size s size c i = elim (Bool-cases (leb size s.wsize)) [
  | inl y ↦ rw y (s, refl, i, refl, leb→le size s.wsize y)
  | inr y ↦
      let (s1, e1, i1, c1, le) = grow_lem copy_size size s s.back c i (ground (arith, y)) in
      (s1, rw y (grown copy_size size s (is_empty s.back) ∙ e1), i1, c1, le)
]
