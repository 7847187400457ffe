-- ===== src/Net/Stream/Settling.antt =====
-- Where PropagateWritePos() leaves the write position.
use serverbox.Prelude.{
  ℕ, ◌<◌, ◌≡◌, refl, sym, ap, ◌∙◌, inl, inr, true, false, Option, some, List, [], ◌∷◌, ◌++◌, arith,
  ltb, ◌==◌, if◌then◌else◌, Bool-cases, length, length-append, append_assoc,
}
use serverbox.Net.Buffer.{Buffer, room}
use serverbox.Net.Buffer.Contents.{
  IsSound, room_of, AllReserved, readable, contents, length-readable, contents-append,
}
use serverbox.Net.Stream.{BufferStream, settle_wpos, before_wpos, at_wpos}
use serverbox.Net.Stream.Shape.{
  first_pos, Settled, IsOpen, read_end, bytes_of, IsStream, Settled-grow, Settled-append,
}
use serverbox.Net.Stream.Passing.{AllFull}

pub full-Settled : (bs back : List Buffer) → AllFull bs → Settled bs back
unfolding AllFull Settled
full-Settled [] back h = tt
full-Settled (b ∷ bs) back (s, p, e, h) = (s, p, inl e, full-Settled bs back h)

pub first_pos-full :
    (bs : List Buffer) (v : Buffer) (more : List Buffer)
    → AllFull bs
    → 0 < v.pos
    → 0 < first_pos (bs ++ (v ∷ more))
unfolding AllFull
first_pos-full [] v more h p = p
first_pos-full (b ∷ bs) v more (s, q, e, h) p = q

-- there is something to read
some_bytes :
    (front : List Buffer) (v : Buffer) (more : List Buffer)
    → IsSound v
    → 0 < v.pos
    → 0 < length (contents (front ++ (v ∷ more)))
unfolding contents
some_bytes front v more s p = omega (
  arith,
  ap length (contents-append front (v ∷ more)),
  length-append (contents front) (readable v ++ contents more),
  length-append (readable v) (contents more),
  length-readable v s,
  p,
)

abbrev pub Ends : Option BufferStream → List ℕ → Type 0
Ends r bytes = (s : BufferStream) × (r ≡ some s) × IsStream s × (bytes_of s ≡ bytes)

-- the write position stays
stays :
    (front : List Buffer) (v : Buffer) (more : List Buffer) (rsize wsize : ℕ)
    → Settled front (v ∷ more)
    → IsOpen (v ∷ more)
    → 0 < v.pos
    → wsize ≡ room_of (v ∷ more)
    → rsize ≡ length (contents (front ++ (v ∷ more)))
    → IsStream (record {
      front = front;
      back = v ∷ more;
      rsize = rsize;
      wsize = wsize;
      rend = some at_wpos;
    })
unfolding bytes_of read_end IsOpen
stays front v more rsize wsize h o p w r =
    let full : (rsize == 0) ≡ false = ground (arith, r, some_bytes front v more o.0 p) in
    let here : (v.pos == 0) ≡ false = ground (arith, p) in
    record { settled = h; writable = o; reads = r; writes = w; marks = rw (full, here) refl }

-- the write position moves on, to an empty buffer or to none
moves :
    (front : List Buffer) (v : Buffer) (more : List Buffer) (rsize wsize : ℕ)
    → Settled front (v ∷ more)
    → IsSound v
    → 0 < v.pos
    → v.pos ≡ v.capacity
    → AllReserved more
    → wsize ≡ room_of (v ∷ more)
    → rsize ≡ length (contents (front ++ (v ∷ more)))
    → Ends
        (some (record {
          front = front ++ (v ∷ []);
          back = more;
          rsize = rsize;
          wsize = wsize;
          rend = some before_wpos;
        }))
        (contents (front ++ (v ∷ more)))
unfolding bytes_of read_end IsOpen Settled room
moves front v more rsize wsize h s p e rs w r =
    let same = ap contents (append_assoc front (v ∷ []) more) in
    let full : (rsize == 0) ≡ false = ground (arith, r, some_bytes front v more s p) in
    (
      record {
        front = front ++ (v ∷ []);
        back = more;
        rsize = rsize;
        wsize = wsize;
        rend = some before_wpos;
      },
      refl,
      record {
        settled =
            Settled-append front (v ∷ []) more (Settled-grow front (v ∷ more) (v ∷ more) h (λ q. q))
              (s, p, inl e, tt);
        writable = opens more rs;
        reads = r ∙ sym (ap length same);
        writes = omega (arith, w, e);
        marks = rw full (empty_next more rs);
      },
      same,
    )
  where
    opens : (bs : List Buffer) → AllReserved bs → IsOpen bs
    opens [] h = tt
    opens (b ∷ bs) (z, p, s, h) = (s, omega (arith, z, p), h)

    empty_next :
        (bs : List Buffer)
        → AllReserved bs
        → some before_wpos ≡ (if first_pos bs == 0 then some before_wpos else some at_wpos)
    empty_next [] h = refl
    empty_next (b ∷ bs) (z, p, s, h) = ground (arith, z)

pub settle_wpos_lem :
    (s : BufferStream) (v : Buffer) (more : List Buffer)
    → Settled s.front (v ∷ more)
    → IsSound v
    → 0 < v.pos
    → AllReserved more
    → s.wsize ≡ room_of (v ∷ more)
    → s.rsize ≡ length (contents (s.front ++ (v ∷ more)))
    → Ends (settle_wpos s (v ∷ more)) (contents (s.front ++ (v ∷ more)))
unfolding settle_wpos IsOpen room bytes_of
settle_wpos_lem s v [] h (le, l) p rs w r = elim (Bool-cases (v.pos == v.capacity)) [
  | inl y ↦
      let full : v.pos ≡ v.capacity = ground (arith, y) in
      let no_room : (s.wsize == 0) ≡ true = ground (arith, w, full) in
      rw (no_room, y) (moves s.front v [] s.rsize s.wsize h (le, l) p full rs w r)
  | inr y ↦
      let lt : v.pos < v.capacity = ground (arith, y, le) in
      let some_room : (s.wsize == 0) ≡ false = ground (arith, w, lt) in
      rw (some_room, y)
        (
          record s { back = v ∷ []; rend = some at_wpos },
          refl,
          stays s.front v [] s.rsize s.wsize h ((le, l), lt, rs) p w r,
          refl,
        )
]
settle_wpos_lem s v (x ∷ more) h (le, l) p (xz, xp, xs, rs) w r =
    let some_room : (s.wsize == 0) ≡ false = ground (arith, w, xz, xp) in
    let next_open : ltb x.pos x.capacity ≡ true = ground (arith, xz, xp) in
    elim (Bool-cases (v.pos == v.capacity)) [
      | inl y ↦
          rw (some_room, y, next_open)
            (moves s.front v (x ∷ more) s.rsize s.wsize h (le, l) p (ground (arith, y))
              (xz, xp, xs, rs) w r)
      | inr y ↦
          let lt : v.pos < v.capacity = ground (arith, y, le) in
          rw (some_room, y)
            (
              record s { back = v ∷ x ∷ more; rend = some at_wpos },
              refl,
              stays s.front v (x ∷ more) s.rsize s.wsize h ((le, l), lt, (xz, xp, xs, rs)) p w r,
              refl,
            )
    ]
