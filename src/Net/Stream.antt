-- ===== src/Net/Stream.antt =====
-- src/mg/net/Buffer.cpp, class BufferStream: a chain of buffers that is read at its head and written
-- at `myWPos`. The chain is kept in two parts: `front` holds the buffers before `myWPos`, `back`
-- those from it to `myTail`; a null `myWPos` is an empty `back`. `myREnd` is told by its place: the
-- last buffer of `front`, the first of `back`, or a buffer of `front` that `suc n` others follow there,
-- `in_front n`. The names of the fields are those of the class.
-- A failed assertion, a null pointer that is dereferenced, or a pointer that would be left at a
-- place where the class does not allow it, are faults: `none`. PrivCheck() is the invariant of
-- Net/Stream/Shape.antt, not a definition here. `copy_size` is `theBufferCopySize`, which depends on
-- the size of a pointer.
pub mod Reading
pub mod Linking
pub mod Shape
pub mod Writing
pub mod Appending
pub mod Failing
pub mod Cutting
pub mod Draining
pub mod Peeking
pub mod Skipping
pub mod Reserving
pub mod Passing
pub mod Settling
pub mod Filling
pub mod Popping
pub mod Joining
pub mod Referring
pub mod RoundTrip
mod Tests
use serverbox.Prelude.{
  ℕ, zero, suc, ◌+◌, ◌-◌, ◌≤◌, ◌<◌, min, ◌≡◌, refl, sym, ap, ◌∙◌, subst, ◌≢◌, ◌⊎◌, inl, inr, Bool,
  true, false, ◌&&◌, ◌||◌, not, Option, none, some, List, [], ◌∷◌, ◌++◌, arith, ltb, leb, ◌==◌,
  if◌then◌else◌, ltb→lt, lt→ltb, leb→le, tests, Bool-cases, Option-cases, ◌>>=◌, length, take, drop,
  replicate, length-append, length-take, length-drop, length-replicate, take-append-drop,
  take-append_short, take-append_long, drop-append_short, drop-append_long, drop-take, take_all,
  drop_all, append-nil, append_assoc,
}
use serverbox.Net.Buffer.{
  Buffer, room, propagate, store_bytes, new_copy, new_raw, append_new, copy_append, buffers_copy,
  copy_each, skip_empty, copy_found, buffers_copy_chain, propagate_on_write, drop_spent,
  propagate_on_read, vectors_for_write, more_vectors, vectors_for_read,
}

pub data ReadEnd : Type 0 where
  before_wpos : ReadEnd
  at_wpos : ReadEnd
  in_front : ℕ → ReadEnd

pub record BufferStream : Type 0 where
  pub front : List Buffer
  pub back : List Buffer
  pub rsize : ℕ
  pub wsize : ℕ
  pub rend : Option ReadEnd

-- Clear(), and a new stream
pub empty_stream : BufferStream
empty_stream = record { front = []; back = []; rsize = 0; wsize = 0; rend = none }

abbrev pub is_empty : List Buffer → Bool
is_empty [] = true
is_empty (b ∷ bs) = false

-- `myTail->myPos == myTail->myCapacity`
unfoldable pub ends_full : List Buffer → Bool
ends_full [] = false
ends_full (b ∷ []) = b.pos == b.capacity
ends_full (b ∷ c ∷ bs) = ends_full (c ∷ bs)

-- The part of EnsureWriteSize() and WriteCopy() that adds a buffer when there is none to write to
pub open_back : ℕ → BufferStream → Option BufferStream
open_back copy_size s =
    let opened = record s { back = new_copy copy_size ∷ []; wsize = copy_size } in
    if s.wsize == 0
    then (if is_empty s.front
        then (if s.rsize == 0 then some opened else none)
        else (if ends_full s.front then some opened else none))
    else none

-- The loop of EnsureWriteSize(), which adds a buffer in each round
unfoldable pub reserve_loop : ℕ → ℕ → ℕ → BufferStream → Option BufferStream
reserve_loop copy_size zero size s = none
reserve_loop copy_size (suc fuel) size s =
    let grown = record s {
      back = s.back ++ (new_copy copy_size ∷ []);
      wsize = s.wsize + copy_size;
    } in
    let rest = reserve_loop copy_size fuel size grown in
    if ltb grown.wsize size then rest else some grown

-- The last assertion of EnsureWriteSize()
unfoldable pub check_wpos : BufferStream → Option BufferStream
check_wpos s = elim s.back [ [] ↦ none | w ∷ rest ↦ if ltb w.pos w.capacity then some s else none ]

-- EnsureWriteSize()
unfoldable pub ensure_write_size : ℕ → BufferStream → ℕ → Option BufferStream
ensure_write_size copy_size s size =
    let reserve : BufferStream → Option BufferStream =
      λ s1. reserve_loop copy_size size size s1 >>= check_wpos in
    if leb size s.wsize
    then some s
    else if is_empty s.back
    then (open_back copy_size s >>= λ s1. if leb size s1.wsize then some s1 else reserve s1)
    else reserve s

-- The end of PropagateWritePos(): where the write position goes
unfoldable pub settle_wpos : BufferStream → List Buffer → Option BufferStream
settle_wpos s [] = if s.wsize == 0 then some (record s { back = []; rend = none }) else none
settle_wpos s (w ∷ []) =
    if s.wsize == 0
    then (if w.pos == w.capacity
        then some (record s { front = s.front ++ (w ∷ []); back = []; rend = some before_wpos })
        else none)
    else if w.pos == w.capacity
    then none
    else some (record s { back = w ∷ []; rend = some at_wpos })
settle_wpos s (w ∷ next ∷ rest) =
    if s.wsize == 0
    then none
    else if w.pos == w.capacity
    then (if ltb next.pos next.capacity
        then some
            (record s { front = s.front ++ (w ∷ []); back = next ∷ rest; rend = some before_wpos })
        else none)
    else some (record s { back = w ∷ next ∷ rest; rend = some at_wpos })

-- PropagateWritePos()
pub propagate_write_pos : BufferStream → ℕ → Option BufferStream
propagate_write_pos s size =
    if leb size s.wsize
    then (propagate_on_write s.back size >>= λ (passed, found).
        settle_wpos
          (record s { front = s.front ++ passed; rsize = s.rsize + size; wsize = s.wsize - size })
          found)
    else none

-- `myREnd` at a buffer that has joined `front` together with these behind it
unfoldable pub end_before : List Buffer → ReadEnd
end_before [] = before_wpos
end_before (x ∷ rest) = in_front (length rest)

-- The loop of WriteCopy(). A buffer that is filled joins `front`, with those that are reserved behind
-- it: the write position goes behind the tail, or is set to null.
pub write_loop : ℕ → ℕ → BufferStream → List Buffer → List ℕ → Option BufferStream
write_loop copy_size zero s back bytes = none
write_loop copy_size (suc fuel) s [] bytes = none
write_loop copy_size (suc fuel) s (w ∷ rest) bytes =
    let filled = record s {
      front = s.front ++ (store_bytes w (take (room w) bytes) ∷ rest);
      back = [];
    } in
    let more =
      write_loop copy_size fuel (record filled { wsize = copy_size }) (new_copy copy_size ∷ [])
        (drop (room w) bytes) in
    let last = record s {
      back = store_bytes w bytes ∷ rest;
      wsize = s.wsize - length bytes;
      rend = some at_wpos;
    } in
    if ltb w.pos w.capacity
    then (if ltb (length bytes) (room w)
        then some last
        else if room w == length bytes
        then some (record filled { wsize = 0; rend = some (end_before rest) })
        else if ends_full (store_bytes w (take (room w) bytes) ∷ rest)
        then more
        else none)
    else none

abbrev pub is_unset : Option ReadEnd → Bool
is_unset none = true
is_unset (some r) = false

-- WriteCopy()
pub write_copy : ℕ → BufferStream → List ℕ → Option BufferStream
write_copy copy_size s bytes =
    let run : BufferStream → Option BufferStream = λ s1.
      write_loop copy_size (length bytes) (record s1 { rsize = s1.rsize + length bytes }) s1.back
        bytes in
    if length bytes == 0
    then some s
    else if not (is_empty s.back)
    then run s
    else if is_empty s.front && not (is_unset s.rend)
    then none
    else (open_back copy_size s >>= run)
