-- ===== src/Net/Stream/Skipping.antt =====
-- SkipData() against ReadData().
use serverbox.Prelude.{
  ℕ, zero, suc, ◌-◌, ◌≤◌, ◌<◌, ◌≡◌, refl, sym, ap, ◌∙◌, inl, inr, true, false, ◌&&◌, not, Option,
  none, some, List, [], ◌∷◌, ◌++◌, arith, ltb, leb, ◌==◌, if◌then◌else◌, leb→le, Bool-cases, ◌>>=◌,
  length, take, length-append, length-drop,
}
use serverbox.Net.Buffer.{Buffer, drop_spent, propagate_on_read}
use serverbox.Net.Buffer.Contents.{AllSound, room_of, readable, contents, length-readable}
use serverbox.Net.Stream.{ReadEnd, BufferStream, empty_stream, is_empty}
use serverbox.Net.Stream.Shape.{first_pos, Settled, IsOpen, read_end, bytes_of, IsStream}
use serverbox.Net.Stream.Reading.{read_bytes, drop_empty_head, read_data, settle_skipped, skip_data}
use serverbox.Net.Stream.Cutting.{IsCut, read_front}
use serverbox.Net.Stream.Draining.{rejoin_lem, cut_stream, check_read_lem, read_cut}
use serverbox.Net.Stream.Peeking.{chain-AllSound}

-- The head of a chain, dropped if nothing is left of it
abbrev spent : List Buffer → List Buffer
spent [] = []
spent (b ∷ bs) = drop_spent b bs

ends_here :
    (o : Option Buffer) (bytes : List ℕ) (bs : List Buffer)
    → (o >>= λ cut. some (drop_spent cut bs))
      ≡ ((o >>= λ cut. some (bytes, cut ∷ bs)) >>= λ (bytes, left). some (spent left))
ends_here none bytes bs = refl
ends_here (some b) bytes bs = refl

goes_on :
    (o : Option (List ℕ × List Buffer)) (first : List ℕ)
    → (o >>= λ (bytes, left). some (spent left)) ≡ (
        (o >>= λ (bytes, left). some (first ++ bytes, left)) >>= λ (bytes, left). some (spent left))
goes_on none first = refl
goes_on (some (bytes, left)) first = refl

skip_read :
    (bs : List Buffer) (size : ℕ)
    → 0 < size
    → propagate_on_read bs size ≡ (read_bytes bs size >>= λ (bytes, left). some (spent left))
unfolding propagate_on_read read_bytes
skip_read bs zero p = elim p [ ]
skip_read [] (suc n) p = refl
skip_read (b ∷ bs) (suc n) p = elim (Bool-cases (leb (suc n) b.pos)) [
  | inl y ↦
      let whole : (if ltb (suc n) b.pos then suc n else b.pos) ≡ suc n = ground (arith, y) in
      let done : (suc n == suc n) ≡ true = ground arith in
      rw (whole, done, y) (ends_here _ (take (suc n) b.bytes) bs)
  | inr y ↦
      let whole : (if ltb (suc n) b.pos then suc n else b.pos) ≡ b.pos = ground (arith, y) in
      let on : (suc n == b.pos) ≡ false = ground (arith, y) in
      rw (whole, on, y, skip_read bs (suc n - b.pos) (ground (arith, y)))
        (goes_on (read_bytes bs (suc n - b.pos)) (take b.pos b.bytes))
]

settle_lem :
    (s : BufferStream) (b : Buffer) (bs front back : List Buffer)
    → front ++ back ≡ b ∷ bs
    → length back ≡ length s.back
    → settle_skipped s (b ∷ bs) ≡ (
        if s.rsize == 0
        then some (record s { front = front; back = back; rend = none })
        else drop_empty_head (record s { front = front; back = back }) front)
unfolding settle_skipped
settle_lem s b bs front back e l = rw (sym e, rejoin_lem s front back l) refl

first_pos-le : (bs : List Buffer) → AllSound bs → first_pos bs ≤ length (contents bs)
unfolding contents
first_pos-le [] h = omega arith
first_pos-le (b ∷ bs) (s, h) =
    omega (arith, length-append (readable b) (contents bs), length-readable b s)

-- whether the read end is cleared before the step over the head or after it
marked_once :
    (front back : List Buffer) (left wsize : ℕ) (rend : Option ReadEnd)
    → (if left == 0
        then some (cut_stream front back left wsize none)
        else some (cut_stream front back left wsize rend))
      ≡ some (cut_stream front back left wsize (if left == 0 then none else rend))
marked_once front back left wsize rend = elim (Bool-cases (left == 0)) [
  | inl y ↦ rw y refl
  | inr y ↦ rw y refl
]

kept : (b : Buffer) (bs : List Buffer) → 0 < b.capacity → drop_spent b bs ≡ b ∷ bs
unfolding drop_spent
kept b bs p = let e : ((b.pos == 0) && (b.capacity == 0)) ≡ false = ground (arith, p) in rw e refl

-- nothing is left of the head
skip_gone :
    (f0 b0 bs back : List Buffer) (left wsize : ℕ) (rend : Option ReadEnd)
    → Settled bs back
    → left ≡ length (contents (bs ++ back))
    → wsize ≡ room_of back
    → length back ≡ length b0
    → settle_skipped (cut_stream f0 b0 left wsize rend) (bs ++ back) ≡ (
        if not (is_empty bs && is_empty back)
        then some (cut_stream bs back left wsize (if left == 0 then none else rend))
        else if wsize == 0
        then some empty_stream
        else none)
unfolding settle_skipped drop_empty_head Settled
skip_gone f0 b0 [] [] left wsize rend h l w e = rw w refl
skip_gone f0 b0 [] (x ∷ back) left wsize rend h l w e =
    settle_lem (cut_stream f0 b0 left wsize rend) x back [] (x ∷ back) refl e
    ∙ marked_once [] (x ∷ back) left wsize rend
skip_gone f0 b0 (b ∷ bs) back left wsize rend (s, p, n, h) l w e =
    let filled : (b.pos == 0) ≡ false = ground (arith, p) in
    settle_lem (cut_stream f0 b0 left wsize rend) b (bs ++ back) (b ∷ bs) back refl e
    ∙ rw filled (marked_once (b ∷ bs) back left wsize rend)

-- The end of a skip and of a read, from the same cut chain
skip_cut :
    (old_front old_back front back : List Buffer) (left wsize : ℕ) (rend : Option ReadEnd)
    → IsCut front back
    → IsOpen back
    → left ≡ length (contents (front ++ back))
    → wsize ≡ room_of back
    → length back ≡ length old_back
    → settle_skipped (cut_stream old_front old_back left wsize rend) (spent (front ++ back))
      ≡ drop_empty_head (cut_stream front back left wsize (if left == 0 then none else rend)) front
unfolding IsCut IsOpen drop_empty_head drop_spent settle_skipped contents empty_stream
skip_cut f0 b0 [] [] left wsize rend h o l w e = rw (l, w) refl
skip_cut f0 b0 [] (x ∷ back) left wsize rend h (xs, lx, rs) l w e =
    rw (kept x back (omega (arith, lx))) (
      settle_lem (cut_stream f0 b0 left wsize rend) x back [] (x ∷ back) refl e
      ∙ marked_once [] (x ∷ back) left wsize rend)
skip_cut f0 b0 (b ∷ bs) back left wsize rend (s, n, h) o l w e =
    let bytes = length-append (readable b) (contents (bs ++ back)) in
    let len = length-readable b s in
    let stays : 0 < b.capacity
        → (left == 0) ≡ false
        → settle_skipped (cut_stream f0 b0 left wsize rend) (drop_spent b (bs ++ back))
          ≡ drop_empty_head (cut_stream (b ∷ bs) back left wsize (if left == 0 then none else rend))
              (b ∷ bs) =
      λ p some_left. rw (kept b (bs ++ back) p) (
        settle_lem (cut_stream f0 b0 left wsize rend) b (bs ++ back) (b ∷ bs) back refl e
        ∙ rw some_left refl) in
    elim (Bool-cases (b.pos == 0)) [
      | inr y ↦ stays (ground (arith, s.0, y)) (ground (arith, l, bytes, len, y))
      | inl y ↦ elim (Bool-cases (b.capacity == 0)) [
        | inl z ↦
            let no_pos : b.pos ≡ 0 = ground (arith, y) in
            let less : left ≡ length (contents (bs ++ back)) =
              omega (arith, l, bytes, len, no_pos) in
            rw (y, z) (skip_gone f0 b0 bs back left wsize rend h less w e)
        | inr z ↦
            let filled : 0 < first_pos (bs ++ back) = elim n [
              | inl full ↦ absurd (ground (arith, full, y, z))
              | inr lt ↦ lt
            ] in
            let le = first_pos-le (bs ++ back) (chain-AllSound bs back h o) in
            stays (ground (arith, z)) (ground (arith, l, bytes, filled, le))
      ]
    ]

unset_once :
    (rend : Option ReadEnd) (rsize pos : ℕ)
    → rend ≡ read_end rsize pos
    → (if rsize == 0 then none else rend) ≡ rend
unfolding read_end
unset_once rend rsize pos m = elim (Bool-cases (rsize == 0)) [
  | inl y ↦ rw y (sym (m ∙ rw y refl))
  | inr y ↦ rw y refl
]

unchanged :
    (s : BufferStream) (front back : List Buffer)
    → IsStream (record s { front = front; back = back })
    → (if not (is_empty front && is_empty back)
        then some (cut_stream front back s.rsize s.wsize (if s.rsize == 0 then none else s.rend))
        else if s.wsize == 0
        then some empty_stream
        else none)
      ≡ some (record s { front = front; back = back })
unfolding empty_stream bytes_of contents read_end
unchanged s [] [] i =
    let nothing : s.rend ≡ none = i.marks ∙ ground (arith, i.reads) in
    let no_room : (s.wsize == 0) ≡ true = ground (arith, i.writes) in
    rw no_room (
      ap (λ r. some (cut_stream [] [] 0 0 r)) (sym nothing)
      ∙ ap (λ w. some (cut_stream [] [] 0 w s.rend)) (sym i.writes)
      ∙ ap (λ r. some (cut_stream [] [] r s.wsize s.rend)) (sym i.reads))
unchanged s [] (x ∷ back) i =
    ap (λ r. some (cut_stream [] (x ∷ back) s.rsize s.wsize r))
      (unset_once s.rend s.rsize x.pos i.marks)
unchanged s (b ∷ bs) back i =
    ap (λ r. some (cut_stream (b ∷ bs) back s.rsize s.wsize r))
      (unset_once s.rend s.rsize (first_pos back) i.marks)

-- nothing to skip
skip_none :
    (s : BufferStream) (front back : List Buffer)
    → IsStream (record s { front = front; back = back })
    → skip_data (record s { front = front; back = back }) 0
      ≡ some (record s { front = front; back = back })
unfolding skip_data propagate_on_read bytes_of
skip_none s front back i =
    let same : s.rsize - 0 ≡ s.rsize = omega arith in
    let any : leb 0 s.rsize ≡ true = ground arith in
    rw (same, any)
      (skip_gone front back front back s.rsize s.wsize s.rend i.settled i.reads i.writes refl
        ∙ unchanged s front back i)

-- SkipData() leaves exactly the stream that ReadData() leaves, and fails where that fails.
pub skip_data-read_data :
    (s : BufferStream) (size : ℕ)
    → IsStream s
    → skip_data s size ≡ (read_data s size >>= λ (bytes, s'). some s')
unfolding skip_data read_data bytes_of
skip_data-read_data s zero i = skip_none s s.front s.back i
skip_data-read_data s (suc n) i = elim (Bool-cases (leb (suc n) s.rsize)) [
  | inr y ↦ rw y refl
  | inl y ↦
      let le = leb→le (suc n) s.rsize y in
      let (f, b, r) =
        read_front s.front s.back (suc n) (omega arith) i.settled i.writable
          (omega (arith, i.reads, le)) in
      let left = s.rsize - suc n in
      let rend = if left == 0 then none else s.rend in
      let (s1, e1, i1, c1) =
        read_cut s (suc n) (read_bytes (s.front ++ s.back) (suc n)) f b i le r in
      let size_left : left ≡ length (contents (f ++ b)) =
        omega (arith, i.reads, length-drop (suc n) (bytes_of s)) ∙ sym (ap length r.left) in
      let skipped =
        skip_cut s.front s.back f b left s.wsize s.rend r.head_cut r.still_open size_left
          (i.writes ∙ sym r.same_room) r.as_long in
      rw
        (
          y,
          skip_read (s.front ++ s.back) (suc n) (omega arith),
          r.answer,
          rejoin_lem (record s { rsize = left; rend = rend }) f b r.as_long,
          e1,
          check_read_lem s1.front s1.back s1 i1,
        )
        (skipped ∙ e1)
]
