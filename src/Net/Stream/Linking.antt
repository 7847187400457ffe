-- ===== src/Net/Stream/Linking.antt =====
-- src/mg/net/Buffer.cpp, class BufferStream: PopData() and WriteRef(), which take whole chains out
-- and in without a copy.
use serverbox.Prelude.{
  ℕ, suc, length, take, drop, ◌+◌, ◌-◌, Bool, false, ◌&&◌, Option, none, some, List, [], ◌∷◌, ◌++◌,
  ltb, ◌==◌, if◌then◌else◌,
}
use serverbox.Net.Buffer.{Buffer, room}
use serverbox.Net.Stream.{
  before_wpos, at_wpos, in_front, ReadEnd, BufferStream, empty_stream, is_empty, ends_full,
  is_unset,
}

-- `myREnd->myCapacity - myREnd->myPos`, for the last buffer before the write position
unfoldable pub last_room : List Buffer → ℕ
last_room [] = 0
last_room (b ∷ []) = room b
last_room (b ∷ c ∷ bs) = last_room (c ∷ bs)

-- What PopData() leaves: the chain behind `myREnd`, whose room is not counted any more
unfoldable pub popped_stream : BufferStream → List Buffer → ℕ → BufferStream
popped_stream s [] lost = empty_stream
popped_stream s (w ∷ rest) lost = record {
  front = [];
  back = w ∷ rest;
  rsize = 0;
  wsize = s.wsize - lost;
  rend = none;
}

-- `myREnd->myPos > 0`, of the last buffer before the write position
unfoldable pub last_has_data : List Buffer → Bool
last_has_data [] = false
last_has_data (b ∷ []) = ltb 0 b.pos
last_has_data (b ∷ c ∷ bs) = last_has_data (c ∷ bs)

-- PopData() up to `myREnd`
unfoldable pub pop_at : BufferStream → ReadEnd → List Buffer → Option (List Buffer × BufferStream)
pop_at s before_wpos back =
    if last_has_data s.front then some (s.front, popped_stream s back (last_room s.front)) else none
pop_at s at_wpos [] = none
pop_at s at_wpos (w ∷ rest) =
    if ltb 0 w.pos then some (s.front ++ (w ∷ []), popped_stream s rest (room w)) else none
pop_at s (in_front n) back =
    let count = length s.front - suc n in
    if last_has_data (take count s.front)
    then some (
      take count s.front,
      popped_stream s (drop count s.front ++ back) (last_room (take count s.front)),
    )
    else none

-- PopData(), by `myREnd`
unfoldable pub pop_by : BufferStream → Option ReadEnd → Option (List Buffer × BufferStream)
pop_by s none = if s.rsize == 0 then some ([], s) else none
pop_by s (some place) = if s.rsize == 0 then none else pop_at s place s.back

-- PopData(): the chain that is handed out, and the stream that is left
unfoldable pub pop_data : BufferStream → Option (List Buffer × BufferStream)
pop_data s = pop_by s s.rend

-- The bytes that a chain says it has
unfoldable pub size_of : List Buffer → ℕ
size_of [] = 0
size_of (b ∷ bs) = b.pos + size_of bs

-- A chain put before `back`: the new part of `front`, and the new `back`, which starts at the last
-- buffer of the chain if that has room
unfoldable pub put_before : List Buffer → List Buffer → List Buffer × List Buffer
put_before [] back = ([], back)
put_before (b ∷ []) back = if b.pos == b.capacity then (b ∷ [], back) else ([], b ∷ back)
put_before (b ∷ c ∷ bs) back = let (before, after) = put_before (c ∷ bs) back in (b ∷ before, after)

-- The stream with a chain behind `front`, and where `myREnd` is then
unfoldable pub joined : BufferStream → List Buffer → List Buffer → List Buffer → ℕ → BufferStream
joined s front chain back wsize =
    let (before, after) = put_before chain back in
    let end_room = last_room chain in
    record {
      front = front ++ before;
      back = after;
      rsize = s.rsize + size_of chain;
      wsize = wsize + end_room;
      rend = if end_room == 0 then some before_wpos else some at_wpos;
    }

-- WriteRef() of a chain with buffers, when there is a buffer to write to, by `myREnd`
unfoldable pub link_at :
    BufferStream → List Buffer → Buffer → List Buffer → Option ReadEnd → Option BufferStream
link_at s chain w rest none =
    if (s.rsize == 0) && is_empty s.front then some (joined s [] chain (w ∷ rest) s.wsize) else none
link_at s chain w rest (some at_wpos) =
    if ltb 0 w.pos
    then some (joined s (s.front ++ (w ∷ [])) chain rest (s.wsize - room w))
    else none
link_at s chain w rest (some before_wpos) =
    if is_empty s.front
    then none
    else if ltb 0 w.pos
    then some (joined s (s.front ++ (w ∷ [])) chain rest (s.wsize - room w))
    else some (joined s s.front chain (w ∷ rest) s.wsize)
link_at s chain w rest (some (in_front n)) = none

-- WriteRef() of a chain with buffers, by the write position
unfoldable pub write_ref_at : BufferStream → List Buffer → List Buffer → Option BufferStream
write_ref_at s chain [] =
    let done = some (joined s s.front chain [] 0) in
    if s.wsize == 0
    then (if is_empty s.front
        then (if (s.rsize == 0) && is_unset s.rend then done else none)
        else (if ends_full s.front then done else none))
    else none
write_ref_at s chain (w ∷ rest) =
    if ltb 0 s.wsize && ltb w.pos w.capacity then link_at s chain w rest s.rend else none

-- WriteRef()
unfoldable pub write_ref : BufferStream → List Buffer → Option BufferStream
write_ref s [] = some s
write_ref s (b ∷ bs) = write_ref_at s (b ∷ bs) s.back
