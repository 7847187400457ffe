-- ===== src/Net/Buffer.antt =====
-- src/mg/net/Buffer.h and src/mg/net/Buffer.cpp: a buffer, and the functions on chains of them. A
-- chain is the list of its buffers, `aHead` first, and a null pointer is the empty chain. `bytes` is
-- the memory from `myRData` to the end of the buffer. A null pointer that is dereferenced, a write
-- past the end and a failed assertion are faults: `none`. The sizes stay below 2 ^ 32 in a buffer,
-- and below 2 ^ 64 in a chain. The reference counts are not modelled: a chain has one owner.
pub mod Contents
pub mod Copies
pub mod Vectors
pub mod References
mod Tests
use serverbox.Prelude.{
  ℕ, zero, suc, ◌+◌, ◌-◌, ◌&&◌, Bool, true, false, Option, none, some, List, [], ◌∷◌, ◌++◌, ◌>>=◌,
  ◌==◌, ltb, leb, if◌then◌else◌, length, take, drop, replicate,
}

pub record Buffer : Type 0 where
  pub pos : ℕ
  pub capacity : ℕ
  pub bytes : List ℕ

-- `myCapacity - myPos`
unfoldable pub room : Buffer → ℕ
room b = b.capacity - b.pos

-- Buffer::Propagate()
unfoldable pub propagate : Buffer → ℕ → Option Buffer
propagate b size =
    if leb size b.pos && leb b.pos b.capacity
    then some
        (record { pos = b.pos - size; capacity = b.capacity - size; bytes = drop size b.bytes })
    else none

-- The copy of bytes behind the position, and the step of the position past them
unfoldable pub store_bytes : Buffer → List ℕ → Buffer
store_bytes b bytes = record b {
  pos = b.pos + length bytes;
  bytes = take b.pos b.bytes ++ bytes ++ drop (b.pos + length bytes) b.bytes;
}

-- BufferCopy(). Its memory is not initialised; here it holds zeros.
unfoldable pub new_copy : ℕ → Buffer
new_copy copy_size = record { pos = 0; capacity = copy_size; bytes = replicate copy_size 0 }

-- BufferRaw(), of data that is ready to be read
pub new_raw : List ℕ → Buffer
new_raw bytes = record { pos = length bytes; capacity = length bytes; bytes = bytes }

-- The loop of BuffersCopyAppend() over new buffers: those that are done, and the last one
pub append_new : ℕ → ℕ → List ℕ → Option (List Buffer × Buffer)
append_new copy_size zero bytes = none
append_new copy_size (suc fuel) bytes =
    let rest = append_new copy_size fuel (drop copy_size bytes) in
    let b = new_copy copy_size in
    if ltb copy_size (length bytes)
    then (rest >>= λ (done, tail). some (store_bytes b (take copy_size bytes) ∷ done, tail))
    else some ([], store_bytes b bytes)

-- BuffersCopyAppend(), to the last buffer of a chain: the buffers that are done, and the last one
pub copy_append : ℕ → Buffer → List ℕ → Option (List Buffer × Buffer)
copy_append copy_size b bytes =
    let rest = append_new copy_size (length bytes) (drop (room b) bytes) in
    if length bytes == 0
    then some ([], b)
    else if leb (length bytes) (room b)
    then some ([], store_bytes b bytes)
    else rest >>= λ (done, tail). some (store_bytes b (take (room b) bytes) ∷ done, tail)

-- BuffersCopy(const void*, uint64_t)
pub buffers_copy : ℕ → List ℕ → Option (List Buffer)
buffers_copy copy_size bytes =
    if length bytes == 0
    then some []
    else copy_append copy_size (new_copy copy_size) bytes >>= λ (done, tail).
        some (done ++ (tail ∷ []))

-- The loop that copies each buffer of a chain behind the tail
pub copy_each : ℕ → Buffer → List Buffer → Option (List Buffer × Buffer)
copy_each copy_size tail [] = some ([], tail)
copy_each copy_size tail (b ∷ bs) = do
  (done, tail1) ← copy_append copy_size tail (take b.pos b.bytes)
  (more, tail2) ← copy_each copy_size tail1 bs
  some (done ++ more, tail2)

-- The loop that skips the buffers without data
pub skip_empty : List Buffer → List Buffer
skip_empty [] = []
skip_empty (b ∷ bs) = if b.pos == 0 then skip_empty bs else b ∷ bs

-- BuffersCopy(const Buffer*), from the first buffer with data
pub copy_found : ℕ → List Buffer → Option (List Buffer)
copy_found copy_size [] = some []
copy_found copy_size (head ∷ rest) =
    copy_each copy_size (new_copy copy_size) (head ∷ rest) >>= λ (done, tail).
    some (done ++ (tail ∷ []))

-- BuffersCopy(const Buffer*)
pub buffers_copy_chain : ℕ → List Buffer → Option (List Buffer)
buffers_copy_chain copy_size bs = copy_found copy_size (skip_empty bs)

-- BuffersPropagateOnWrite(): the buffers passed, and the chain that starts at the buffer returned
unfoldable pub propagate_on_write : List Buffer → ℕ → Option (List Buffer × List Buffer)
propagate_on_write bs zero = some ([], bs)
propagate_on_write [] (suc n) = none
propagate_on_write (b ∷ bs) (suc n) =
    let rest = propagate_on_write bs (suc n - room b) in
    let full = record b { pos = b.capacity } in
    if ltb (suc n) (room b)
    then some ([], record b { pos = b.pos + suc n } ∷ bs)
    else if room b == suc n
    then some ([], full ∷ bs)
    else rest >>= λ (passed, found). some (full ∷ passed, found)

-- The end of BuffersPropagateOnRead(): a buffer with nothing left goes
unfoldable pub drop_spent : Buffer → List Buffer → List Buffer
drop_spent b bs = if (b.pos == 0) && (b.capacity == 0) then bs else b ∷ bs

-- BuffersPropagateOnRead()
unfoldable pub propagate_on_read : List Buffer → ℕ → Option (List Buffer)
propagate_on_read bs zero = some bs
propagate_on_read [] (suc n) = none
propagate_on_read (b ∷ bs) (suc n) =
    let rest = propagate_on_read bs (suc n - b.pos) in
    if leb (suc n) b.pos then (propagate b (suc n) >>= λ cut. some (drop_spent cut bs)) else rest

-- BuffersToIOVecsForWrite(const Buffer*, ...), with the bytes that each vector stands for. `count`
-- is how many vectors are left.
unfoldable pub vectors_for_write : List Buffer → ℕ → ℕ → Option (List (List ℕ))
vectors_for_write [] offset count = some []
vectors_for_write (b ∷ bs) offset zero = some []
vectors_for_write (b ∷ bs) offset (suc count) =
    let skipped = vectors_for_write bs offset (suc count) in
    let rest = vectors_for_write bs 0 count in
    if b.pos == 0
    then skipped
    else if ltb offset b.pos
    then (rest >>= λ vs. some (drop offset (take b.pos b.bytes) ∷ vs))
    else none

-- The loop of BuffersToIOVecsForRead(), behind the first buffer, with the size of each vector
pub more_vectors : List Buffer → ℕ → Option (List ℕ)
more_vectors [] count = some []
more_vectors (b ∷ bs) zero = some []
more_vectors (b ∷ bs) (suc count) =
    let rest = more_vectors bs count in
    if (b.pos == 0) && ltb 0 b.capacity then (rest >>= λ sizes. some (b.capacity ∷ sizes)) else none

-- BuffersToIOVecsForRead(), with the size of each vector. No vector to fill is a fault.
pub vectors_for_read : List Buffer → ℕ → Option (List ℕ)
vectors_for_read [] count = none
vectors_for_read (b ∷ bs) zero = none
vectors_for_read (b ∷ bs) (suc count) =
    if ltb b.pos b.capacity
    then (more_vectors bs count >>= λ sizes. some (room b ∷ sizes))
    else none
