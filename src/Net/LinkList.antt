-- ===== src/Net/LinkList.antt =====
-- src/mg/net/Buffer.h and src/mg/net/Buffer.cpp, class BufferLinkList: a list of chains of buffers,
-- which are shared and so not altered, and the functions on lists of links. A link is the chain at
-- its `myHead`, the list is its links in order. The caller keeps the offset, `aByteOffset`, of the
-- first byte that it has not used yet. A null pointer that is dereferenced, or a failed assertion,
-- is a fault: `none`.
pub mod Kept
pub mod Skips
pub mod Prefix
pub mod Gathers
pub mod Copying
mod Tests
use serverbox.Prelude.{
  ℕ, zero, suc, ◌+◌, ◌-◌, ◌≤◌, ◌<◌, min, ◌≡◌, refl, sym, ap, ◌∙◌, subst, ◌≢◌, ◌⊎◌, inl, inr, Bool,
  true, false, ◌&&◌, ◌||◌, not, Option, none, some, List, [], ◌∷◌, ◌++◌, arith, ltb, leb, ◌==◌,
  if◌then◌else◌, ltb→lt, lt→ltb, leb→le, tests, Bool-cases, Option-cases, ◌>>=◌, length, take, drop,
  replicate, length-append, length-take, length-drop, length-replicate, take-append-drop,
  take-append_short, take-append_long, drop-append_short, drop-append_long, drop-take, take_all,
  drop_all, take-take, take_add, append-nil, append_assoc,
}
use serverbox.Net.Buffer.{
  Buffer, room, propagate, store_bytes, new_copy, new_raw, append_new, copy_append, buffers_copy,
  copy_each, skip_empty, copy_found, buffers_copy_chain, propagate_on_write, drop_spent,
  propagate_on_read, vectors_for_write, more_vectors, vectors_for_read,
}
use serverbox.Net.Buffer.References.{
  max_size, ref_loop, ref_chunks, buffers_ref, AllWithin, buffers_ref_correct,
}

abbrev pub Link : Type 0
Link = List Buffer

-- AppendMove()
pub append_move : List Link → List Link → List Link
append_move links more = links ++ more

-- AppendRef() of a chain
pub append_ref : List Link → List Buffer → List Link
append_ref links [] = links
append_ref links (b ∷ bs) = append_move links ((b ∷ bs) ∷ [])

-- AppendRef() of data
pub append_ref_data : List Link → List ℕ → Option (List Link)
append_ref_data links bytes = buffers_ref bytes >>= λ bs. some (append_ref links bs)

-- AppendCopy()
pub append_copy : ℕ → List Link → List ℕ → Option (List Link)
append_copy copy_size links bytes =
    buffers_copy copy_size bytes >>= λ bs. some (append_ref links bs)

-- Append(), which leaves the other list empty
pub append_all : List Link → List Link → List Link × List Link
append_all links other = (links ++ other, [])

-- What the search in a link finds: the chain to go on with and the offset in it, or how many bytes
-- are left to skip behind the link
pub data Skipped : Type 0 where
  found : List Buffer → ℕ → Skipped
  passed : ℕ → Skipped

-- The inner loop of SkipData()
unfoldable pub skip_chain : List Buffer → ℕ → Skipped
skip_chain [] count = passed count
skip_chain (b ∷ bs) count =
    let rest = skip_chain bs (count - b.pos) in
    if ltb count b.pos then found (b ∷ bs) count else rest

-- The outer loop of SkipData()
unfoldable pub skip_links : List Link → ℕ → Option (List Link × ℕ)
skip_links links zero = some (links, 0)
skip_links [] (suc n) = none
skip_links (l ∷ ls) (suc n) = elim (skip_chain l (suc n)) [
  | found chain offset ↦ some (chain ∷ ls, offset)
  | passed left ↦ skip_links ls left
]

-- SkipData(): the links that are left, and the offset
unfoldable pub skip_link_data : List Link → ℕ → ℕ → Option (List Link × ℕ)
skip_link_data links offset count = skip_links links (count + offset)

-- The inner loop of SkipEmptyPrefix()
unfoldable pub drop_used : List Buffer → ℕ → Option Skipped
drop_used [] offset = some (passed offset)
drop_used (b ∷ bs) offset =
    let rest = drop_used bs 0 in
    let skip = drop_used bs offset in
    if ltb 0 b.pos
    then (if ltb offset b.pos
        then some (found (b ∷ bs) offset)
        else if offset == b.pos
        then rest
        else none)
    else skip

-- The outer loop of SkipEmptyPrefix()
unfoldable pub drop_used_links : List Link → ℕ → Option (List Link × ℕ)
drop_used_links [] offset = some ([], offset)
drop_used_links (l ∷ ls) offset = elim (drop_used l offset) [
  | none ↦ none
  | some (found chain offset1) ↦ some (chain ∷ ls, offset1)
  | some (passed offset1) ↦ drop_used_links ls offset1
]

-- SkipEmptyPrefix()
unfoldable pub skip_empty_prefix : List Link → ℕ → Option (List Link × ℕ)
skip_empty_prefix [] offset = if offset == 0 then some ([], 0) else none
skip_empty_prefix ([] ∷ ls) offset = drop_used_links ([] ∷ ls) offset
skip_empty_prefix ((b ∷ bs) ∷ ls) offset =
    let slow = drop_used_links ((b ∷ bs) ∷ ls) offset in
    if ltb offset b.pos then some ((b ∷ bs) ∷ ls, offset) else slow

-- The inner loop of BuffersToIOVecsForWrite(const BufferLink*, ...): the vectors, and the offset
unfoldable pub chain_vectors : List Buffer → ℕ → ℕ → Option (List (List ℕ) × ℕ)
chain_vectors [] offset count = some ([], offset)
chain_vectors (b ∷ bs) offset zero = some ([], offset)
chain_vectors (b ∷ bs) offset (suc count) =
    let skipped = chain_vectors bs offset (suc count) in
    let rest = chain_vectors bs 0 count in
    if b.pos == 0
    then skipped
    else if ltb offset b.pos
    then (rest >>= λ (vs, offset1). some (drop offset (take b.pos b.bytes) ∷ vs, offset1))
    else none

-- BuffersToIOVecsForWrite(const BufferLink*, ...)
unfoldable pub link_vectors : List Link → ℕ → ℕ → Option (List (List ℕ))
link_vectors [] offset count = some []
link_vectors (l ∷ ls) offset count = do
  (vs, offset1) ← chain_vectors l offset count
  let rest = link_vectors ls offset1 (count - length vs)
  if length vs == count then some vs else (rest >>= λ more. some (vs ++ more))
