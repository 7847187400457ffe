-- ===== src/Net/Stream/Cutting.antt =====
-- What a read leaves of a chain.
use serverbox.Prelude.{
  take-take, ℕ, ◌-◌, ◌≤◌, ◌<◌, ◌≡◌, refl, sym, ap, ◌∙◌, ◌⊎◌, inl, inr, true, false, Option, some,
  List, [], ◌∷◌, ◌++◌, arith, ltb, leb, ◌==◌, if◌then◌else◌, leb→le, Bool-cases, length, take, drop,
  length-append, length-take, length-drop, take-append_short, take-append_long, drop-append_short,
  drop-append_long, append-nil,
}
use serverbox.Net.Buffer.{Buffer, room}
use serverbox.Net.Buffer.Contents.{
  IsSound, room_of, readable, contents, length-readable, propagate_lem, cut, cut-IsSound,
  readable-cut,
}
use serverbox.Net.Stream.Shape.{first_pos, Settled, IsOpen, contents-reserved}
use serverbox.Net.Stream.Reading.{read_bytes}

-- The buffers before the write position once the head has been read from: it may have no data.
unfoldable pub IsCut : List Buffer → List Buffer → Type 0
IsCut [] back = Unit
IsCut (b ∷ bs) back =
    IsSound b × ((b.pos ≡ b.capacity) ⊎ (0 < first_pos (bs ++ back))) × Settled bs back

-- A read of `size` bytes found `bytes` in the two parts of a chain, and left `front` and `back`.
pub record ReadFrom (result : Option (List ℕ × List Buffer)) (size : ℕ) (bytes : List ℕ)
    (old : List Buffer) (front back : List Buffer) : Type 0 where
  pub answer : result ≡ some (take size bytes, front ++ back)
  pub as_long : length back ≡ length old
  pub left : contents (front ++ back) ≡ drop size bytes
  pub still_open : IsOpen back
  pub same_room : room_of back ≡ room_of old
  pub same_mark : ((first_pos back == 0) ≡ (first_pos old == 0)) ⊎ (length (drop size bytes) ≡ 0)
  pub head_cut : IsCut front back

-- the read ends in the first buffer
read_head :
    (b : Buffer) (bs : List Buffer) (size : ℕ)
    → IsSound b
    → size ≤ b.pos
    → read_bytes (b ∷ bs) size ≡ some (take size (contents (b ∷ bs)), cut b size ∷ bs)
unfolding read_bytes contents readable
read_head b bs size (le, e) h =
    let whole : (if ltb size b.pos then size else b.pos) ≡ size = ground (arith, h) in
    let done : (size == size) ≡ true = ground arith in
    let fits : size ≤ length (take b.pos b.bytes) =
      omega (arith, length-take b.pos b.bytes, le, e, h) in
    let bytes : take size b.bytes ≡ take size (take b.pos b.bytes ++ contents bs) = sym (
      take-append_short size (take b.pos b.bytes) (contents bs) fits
      ∙ take-take size b.pos b.bytes h) in
    rw (whole, done, propagate_lem b size (le, e) h) (ap (λ k. some (k, cut b size ∷ bs)) bytes)

-- the read goes on behind the first buffer
read_on :
    (b : Buffer) (bs : List Buffer) (size : ℕ) (left : List Buffer)
    → IsSound b
    → b.pos < size
    → read_bytes bs (size - b.pos) ≡ some (take (size - b.pos) (contents bs), left)
    → read_bytes (b ∷ bs) size ≡ some (take size (contents (b ∷ bs)), left)
unfolding read_bytes contents readable
read_on b bs size left s h e =
    let whole : (if ltb size b.pos then size else b.pos) ≡ b.pos = ground (arith, h) in
    let more : (size == b.pos) ≡ false = ground (arith, h) in
    let len = length-readable b s in
    let bytes : readable b ++ take (size - b.pos) (contents bs)
        ≡ take size (readable b ++ contents bs) =
      sym (
        take-append_long size (readable b) (contents bs) (omega (arith, len, h))
        ∙ ap (λ k. readable b ++ take (size - k) (contents bs)) len) in
    rw (whole, more, e) (ap (λ k. some (k, left)) bytes)

room_left :
    (w : Buffer) (rest : List Buffer) (size : ℕ)
    → size ≤ w.pos
    → room_of (cut w size ∷ rest) ≡ room_of (w ∷ rest)
unfolding room
room_left w rest size h = omega (arith, h)

-- from the write position on
read_back :
    (w : Buffer) (rest : List Buffer) (size : ℕ)
    → 0 < size
    → IsOpen (w ∷ rest)
    → size ≤ length (contents (w ∷ rest))
    → ReadFrom
        (read_bytes (w ∷ rest) size)
        size
        (contents (w ∷ rest))
        (w ∷ rest)
        []
        (cut w size ∷ rest)
unfolding IsOpen contents IsCut
read_back w rest size p (ws, lw, rs) h =
    let none_behind = contents-reserved rest rs in
    let len : length (readable w ++ contents rest) ≡ w.pos =
      rw none_behind (rw (append-nil (readable w)) (length-readable w ws)) in
    let fits : size ≤ w.pos = omega (arith, len, h) in
    let gone = length-drop size (readable w ++ contents rest) in
    let mark_left : ((w.pos - size == 0) ≡ (w.pos == 0))
        ⊎ (length (drop size (readable w ++ contents rest)) ≡ 0) =
      elim (Bool-cases (w.pos - size == 0)) [
        | inl e ↦ inr (ground (arith, e, gone, len))
        | inr e ↦ inl (ground (arith, e))
      ] in
    record {
      answer = read_head w rest size ws fits;
      as_long = refl;
      left =
          rw (readable-cut w size, none_behind)
            (rw (append-nil (drop size (readable w)), append-nil (readable w)) refl);
      still_open = (cut-IsSound w size ws fits, omega (arith, fits, lw), rs);
      same_room = room_left w rest size fits;
      same_mark = mark_left;
      head_cut = tt;
    }

still_followed :
    (b : Buffer) (size : ℕ) (bs : List Buffer)
    → (b.pos ≡ b.capacity) ⊎ (0 < first_pos bs)
    → ((cut b size).pos ≡ (cut b size).capacity) ⊎ (0 < first_pos bs)
still_followed b size bs (inl e) = inl (ap (λ n. n - size) e)
still_followed b size bs (inr p) = inr p

pub read_front :
    (front back : List Buffer) (size : ℕ)
    → 0 < size
    → Settled front back
    → IsOpen back
    → size ≤ length (contents (front ++ back))
    → (f b : List Buffer) × ReadFrom
        (read_bytes (front ++ back) size)
        size
        (contents (front ++ back))
        back
        f
        b
unfolding Settled IsCut contents
read_front [] [] size p h o le = absurd (omega (arith, le, p))
read_front [] (w ∷ rest) size p h o le = ([], cut w size ∷ rest, read_back w rest size p o le)
read_front (b ∷ bs) back size p (s, q, n, h) o le =
    let len = length-readable b s in
    elim (Bool-cases (leb size b.pos)) [
      | inl y ↦
          let fits = leb→le size b.pos y in
          (
            cut b size ∷ bs,
            back,
            record {
              answer = read_head b (bs ++ back) size s fits;
              as_long = refl;
              left =
                  ap (λ r. r ++ contents (bs ++ back)) (readable-cut b size)
                  ∙ sym (
                      drop-append_short size (readable b) (contents (bs ++ back))
                        (omega (arith, len, fits)));
              still_open = o;
              same_room = refl;
              same_mark = inl refl;
              head_cut = (cut-IsSound b size s fits, still_followed b size (bs ++ back) n, h);
            },
          )
      | inr y ↦
          let more : b.pos < size = ground (arith, y) in
          let total = length-append (readable b) (contents (bs ++ back)) in
          let (f, g, r) =
            read_front bs back (size - b.pos) (omega (arith, more)) h o
              (omega (arith, more, len, total, le)) in
          let behind : drop size (readable b ++ contents (bs ++ back))
              ≡ drop (size - b.pos) (contents (bs ++ back)) =
            drop-append_long size (readable b) (contents (bs ++ back)) (omega (arith, len, more))
            ∙ ap (λ k. drop (size - k) (contents (bs ++ back))) len in
          (
            f,
            g,
            record {
              answer = read_on b (bs ++ back) size (f ++ g) s more r.answer;
              as_long = r.as_long;
              left = r.left ∙ sym behind;
              still_open = r.still_open;
              same_room = r.same_room;
              same_mark = rw behind r.same_mark;
              head_cut = r.head_cut;
            },
          )
    ]
