-- ===== src/Net/Stream/Appending.antt =====
-- What WriteCopy() does to the bytes and to the shape of a stream.
use serverbox.Prelude.{
  ℕ, ◌+◌, ◌<◌, ◌≡◌, refl, sym, ap, ◌∙◌, ◌⊎◌, inl, inr, true, false, ◌&&◌, not, Option, none, some,
  List, [], ◌∷◌, ◌++◌, arith, ◌==◌, length, length-append, append-nil,
}
use serverbox.Net.Buffer.{Buffer, room, new_copy}
use serverbox.Net.Buffer.Contents.{readable, contents, contents-append, new_copy-IsSound}
use serverbox.Net.Stream.{
  BufferStream, is_empty, ends_full, open_back, write_loop, is_unset, write_copy,
}
use serverbox.Net.Stream.Shape.{Settled, IsOpen, read_end, bytes_of, IsStream, Settled-grow}
use serverbox.Net.Stream.Writing.{Wrote, write_loop_lem}

pub ends_full-Settled :
    (b : Buffer) (bs : List Buffer) → Settled (b ∷ bs) [] → ends_full (b ∷ bs) ≡ true
unfolding Settled ends_full
ends_full-Settled b [] (s, p, inl e, h) = ground (arith, e)
ends_full-Settled b [] (s, p, inr e, h) = elim e [ ]
ends_full-Settled b (c ∷ bs) (s, p, n, h) = ends_full-Settled c bs h

-- A new buffer is added without a failed assertion when there is none to write to.
pub open_back_lem :
    (copy_size : ℕ) (s : BufferStream) (front : List Buffer)
    → IsStream (record s { front = front; back = [] })
    → open_back copy_size (record s { front = front; back = [] })
      ≡ some (record s { front = front; back = new_copy copy_size ∷ []; wsize = copy_size })
unfolding open_back bytes_of contents
open_back_lem copy_size s [] i =
    let no_room : (s.wsize == 0) ≡ true = ground (arith, i.writes) in
    let no_bytes : (s.rsize == 0) ≡ true = ground (arith, i.reads) in rw (no_room, no_bytes) refl
open_back_lem copy_size s (b ∷ bs) i =
    let no_room : (s.wsize == 0) ≡ true = ground (arith, i.writes) in
    rw (no_room, ends_full-Settled b bs i.settled) refl

-- Room for the bytes in the buffer at the write position, if there are reserved ones behind it
abbrev pub Fits : List Buffer → List ℕ → Type 0
Fits [] bytes = Unit
Fits (w ∷ rest) bytes = (rest ≡ []) ⊎ (length bytes < room w)

Wrote-IsStream :
    (r : Option BufferStream) (s : BufferStream) (bytes : List ℕ)
    → s.rsize ≡ length (bytes_of s)
    → 0 < length bytes
    → Wrote r (s.rsize + length bytes) (bytes_of s ++ bytes)
    → (s' : BufferStream) × (r ≡ some s') × IsStream s' × (bytes_of s' ≡ bytes_of s ++ bytes)
unfolding read_end
Wrote-IsStream r s bytes n p (s1, e, z, h, o, wr, b, m) =
    let some_bytes : (s1.rsize == 0) ≡ false = ground (arith, z, p) in
    (
      s1,
      e,
      record {
        settled = h;
        writable = o;
        reads = z ∙ omega (arith, n, length-append (bytes_of s) bytes) ∙ sym (ap length b);
        writes = wr;
        marks = rw some_bytes m;
      },
      b,
    )

pub no_read_end :
    (s : BufferStream) (front : List Buffer)
    → IsStream (record s { front = front; back = [] })
    → (is_empty front && not (is_unset s.rend)) ≡ false
unfolding read_end bytes_of contents
no_read_end s [] i =
    let unset : s.rend ≡ none = i.marks ∙ ground (arith, i.reads) in
    ap (λ r. not (is_unset r)) unset
no_read_end s (b ∷ bs) i = refl

-- the loop, from a buffer that has just been added
write_opened :
    (copy_size : ℕ) (s : BufferStream) (bytes : List ℕ)
    → 0 < copy_size
    → 0 < length bytes
    → IsStream (record s { back = [] })
    → Wrote
        (write_loop copy_size
          (length bytes)
          (record s {
            back = new_copy copy_size ∷ [];
            wsize = copy_size;
            rsize = s.rsize + length bytes;
          })
          (new_copy copy_size ∷ [])
          bytes)
        (s.rsize + length bytes)
        (contents (s.front ++ []) ++ bytes)
unfolding IsOpen new_copy room contents readable
write_opened copy_size s bytes c p i =
    let w = new_copy copy_size in
    let same : contents (s.front ++ (w ∷ [])) ≡ contents (s.front ++ []) =
      contents-append s.front (w ∷ []) ∙ sym (contents-append s.front []) in
    rw (sym same) (
      write_loop_lem copy_size (length bytes)
        (record s { back = w ∷ []; wsize = copy_size; rsize = s.rsize + length bytes }) w [] bytes c
        (omega arith) p (Settled-grow s.front [] (w ∷ []) i.settled (λ lt. elim lt [ ]))
        (new_copy-IsSound copy_size, c, tt) (omega arith) (inl refl))

write_copy_at :
    (copy_size : ℕ) (s : BufferStream) (back : List Buffer) (bytes : List ℕ)
    → 0 < copy_size
    → 0 < length bytes
    → IsStream (record s { back = back })
    → Fits back bytes
    → Wrote
        (write_copy copy_size (record s { back = back }) bytes)
        (s.rsize + length bytes)
        (bytes_of (record s { back = back }) ++ bytes)
unfolding write_copy bytes_of
write_copy_at copy_size s [] bytes c p i f =
    let some_bytes : (length bytes == 0) ≡ false = ground (arith, p) in
    let kept = no_read_end s s.front i in
    rw (some_bytes, kept, open_back_lem copy_size s s.front i)
      (write_opened copy_size s bytes c p i)
write_copy_at copy_size s (w ∷ rest) bytes c p i f =
    let some_bytes : (length bytes == 0) ≡ false = ground (arith, p) in
    rw some_bytes (
      write_loop_lem copy_size (length bytes)
        (record s { back = w ∷ rest; rsize = s.rsize + length bytes }) w rest bytes c (omega arith)
        p i.settled i.writable i.writes f)

-- WriteCopy() puts the bytes behind those of a stream and keeps it well-formed. No buffers may be
-- reserved behind the one at the write position unless the bytes leave room in that one.
pub write_copy_correct :
    (copy_size : ℕ) (s : BufferStream) (bytes : List ℕ)
    → 0 < copy_size
    → IsStream s
    → Fits s.back bytes
    → (s' : BufferStream) × (write_copy copy_size s bytes ≡ some s')
      × IsStream s'
      × (bytes_of s' ≡ bytes_of s ++ bytes)
unfolding write_copy
write_copy_correct copy_size s [] c i f = (s, refl, i, sym (append-nil (bytes_of s)))
write_copy_correct copy_size s (x ∷ xs) c i f =
    let more : 0 < length (x ∷ xs) = omega arith in
    Wrote-IsStream (write_copy copy_size s (x ∷ xs)) s (x ∷ xs) i.reads more
      (write_copy_at copy_size s s.back (x ∷ xs) c more i f)
