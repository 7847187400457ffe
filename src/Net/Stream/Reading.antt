-- ===== src/Net/Stream/Reading.antt =====
-- src/mg/net/Buffer.cpp, class BufferStream: ReadData(), PeekData() and SkipData().
use serverbox.Prelude.{
  ℕ, zero, suc, ◌-◌, ◌&&◌, not, Option, none, some, List, [], ◌∷◌, ◌++◌, ltb, leb, ◌==◌,
  if◌then◌else◌, ◌>>=◌, length, take, drop,
}
use serverbox.Net.Buffer.{Buffer, propagate, propagate_on_read}
use serverbox.Net.Stream.{BufferStream, empty_stream, is_empty}

-- The loop of ReadData(): the bytes read, and what is left of the chain, with its head not yet
-- looked at
unfoldable pub read_bytes : List Buffer → ℕ → Option (List ℕ × List Buffer)
read_bytes [] size = none
read_bytes (b ∷ bs) size =
    let to_read = if ltb size b.pos then size else b.pos in
    let rest = read_bytes bs (size - to_read) in
    if size == to_read
    then (propagate b to_read >>= λ cut. some (take to_read b.bytes, cut ∷ bs))
    else (rest >>= λ (bytes, left). some (take to_read b.bytes ++ bytes, left))

-- The loop of PeekData()
unfoldable pub peek_bytes : List Buffer → ℕ → Option (List ℕ)
peek_bytes [] size = none
peek_bytes (b ∷ bs) size =
    let to_read = if leb size b.pos then size else b.pos in
    let rest = peek_bytes bs (size - to_read) in
    if size == to_read
    then some (take to_read b.bytes)
    else (rest >>= λ bytes. some (take to_read b.bytes ++ bytes))

-- A chain that has lost buffers at its head, around the same write position, which must be there
unfoldable pub rejoin : BufferStream → List Buffer → Option BufferStream
rejoin s chain =
    let before = length chain - length s.back in
    if leb (length s.back) (length chain)
    then some (record s { front = take before chain; back = drop before chain })
    else none

-- The step of SkipData() and ReadData() over a head that has no data and is not the write position
unfoldable pub drop_empty_head : BufferStream → List Buffer → Option BufferStream
drop_empty_head s [] = some s
drop_empty_head s (b ∷ bs) =
    let gone = record s { front = bs } in
    if b.pos == 0
    then (if not (is_empty bs && is_empty s.back)
        then some gone
        else if s.wsize == 0
        then some empty_stream
        else none)
    else some s

-- The last assertion of ReadData()
unfoldable pub check_read : BufferStream → Option BufferStream
check_read s =
    if is_empty s.front && is_empty s.back
    then some s
    else if (s.rsize == 0) && (s.wsize == 0)
    then none
    else some s

-- ReadData(), with the bytes that it copies out
unfoldable pub read_data : BufferStream → ℕ → Option (List ℕ × BufferStream)
read_data s zero = some ([], s)
read_data s (suc n) =
    let left = s.rsize - suc n in
    let s1 = record s { rsize = left; rend = if left == 0 then none else s.rend } in
    let run : Option (List ℕ × BufferStream) = do
      (bytes, chain) ← read_bytes (s.front ++ s.back) (suc n)
      s2 ← rejoin s1 chain
      s3 ← drop_empty_head s2 s2.front
      s4 ← check_read s3
      some (bytes, s4)
    in if leb (suc n) s.rsize then run else none

-- PeekData()
unfoldable pub peek_data : BufferStream → ℕ → Option (List ℕ)
peek_data s zero = some []
peek_data s (suc n) = if leb (suc n) s.rsize then peek_bytes (s.front ++ s.back) (suc n) else none

-- The end of SkipData(), with the chain that is left
unfoldable pub settle_skipped : BufferStream → List Buffer → Option BufferStream
settle_skipped s [] = some empty_stream
settle_skipped s (b ∷ bs) = rejoin s (b ∷ bs) >>= λ s1.
    if s1.rsize == 0 then some (record s1 { rend = none }) else drop_empty_head s1 s1.front

-- SkipData()
unfoldable pub skip_data : BufferStream → ℕ → Option BufferStream
skip_data s size =
    if leb size s.rsize
    then (propagate_on_read (s.front ++ s.back) size
        >>= settle_skipped (record s { rsize = s.rsize - size }))
    else none
