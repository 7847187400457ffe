-- ===== src/Net/LinkList/Copying.antt =====
-- src/mg/net/Buffer.cpp, BuffersCopy(const BufferLink*): a copy of all the links in one chain.
use serverbox.Prelude.{
  ℕ, ◌<◌, ◌≡◌, refl, sym, ap, ◌∙◌, Option, some, List, [], ◌∷◌, ◌++◌, arith, ◌>>=◌, append-nil,
  append_assoc,
}
use serverbox.Net.Buffer.{Buffer, new_copy, copy_each, skip_empty}
use serverbox.Net.Buffer.Contents.{
  IsSound, AllSound, readable, contents, contents-append, AllSound-append, new_copy-IsSound,
  readable-new_copy,
}
use serverbox.Net.Buffer.Copies.{Appended, contents_last, copy_each_lem, contents-skip_empty}
use serverbox.Net.LinkList.{Link}
use serverbox.Net.LinkList.Skips.{link_bytes}

-- One link in the first loop of BuffersCopy(): its chain from the first buffer with data and the
-- links behind, or what the next links give
pub found_in : List Buffer → List Link → List Buffer × List Link → List Buffer × List Link
found_in [] ls later = later
found_in (b ∷ bs) ls later = (b ∷ bs, ls)

-- The first loop of BuffersCopy()
pub find_data : List Link → List Buffer × List Link
find_data [] = ([], [])
find_data (l ∷ ls) = found_in (skip_empty l) ls (find_data ls)

-- The second loop of BuffersCopy(), over the links behind the first one with data
pub copy_links : ℕ → Buffer → List Link → Option (List Buffer × Buffer)
copy_links copy_size tail [] = some ([], tail)
copy_links copy_size tail (l ∷ ls) = do
  (done, tail1) ← copy_each copy_size tail l
  (more, tail2) ← copy_links copy_size tail1 ls
  some (done ++ more, tail2)

-- BuffersCopy(const BufferLink*), from what the first loop has found
pub copy_found_links : ℕ → List Buffer × List Link → Option (List Buffer)
copy_found_links copy_size ([], ls) = some []
copy_found_links copy_size (b ∷ bs, ls) =
    copy_links copy_size (new_copy copy_size) ((b ∷ bs) ∷ ls) >>= λ (done, tail).
    some (done ++ (tail ∷ []))

-- BuffersCopy(const BufferLink*)
pub buffers_copy_links : ℕ → List Link → Option (List Buffer)
buffers_copy_links copy_size links = copy_found_links copy_size (find_data links)

copy_links_lem :
    (copy_size : ℕ) (tail : Buffer) (ls : List Link)
    → 0 < copy_size
    → IsSound tail
    → Appended (copy_links copy_size tail ls) tail (link_bytes ls)
unfolding copy_links link_bytes contents
copy_links_lem copy_size tail [] c s = ([], tail, refl, tt, s, sym (append-nil (readable tail)))
copy_links_lem copy_size tail (l ∷ ls) c s =
    let (done, tail1, e, ds, ts, b) = copy_each_lem copy_size tail l c s in
    let (more, tail2, e2, ms, ts2, b2) = copy_links_lem copy_size tail1 ls c ts in
    (
      done ++ more,
      tail2,
      rw e (rw e2 refl),
      AllSound-append done more ds ms,
      ts2,
      rw
          (
            contents-append done more,
            append_assoc (contents done) (contents more) (readable tail2),
            b2,
            sym (append_assoc (contents done) (readable tail1) (link_bytes ls)),
            b,
          )
          (append_assoc (readable tail) (contents l) (link_bytes ls)),
    )

-- the links found have the bytes of all
found_bytes :
    (bs : List Buffer) (l : Link) (ls : List Link) (later : List Buffer × List Link)
    → contents bs ≡ contents l
    → contents later.0 ++ link_bytes later.1 ≡ link_bytes ls
    → contents (found_in bs ls later).0 ++ link_bytes (found_in bs ls later).1
      ≡ contents l ++ link_bytes ls
unfolding contents link_bytes found_in
found_bytes [] l ls later e h = h ∙ ap (λ k. k ++ link_bytes ls) e
found_bytes (b ∷ bs) l ls later e h = ap (λ k. k ++ link_bytes ls) e

find_data_lem :
    (ls : List Link) → contents (find_data ls).0 ++ link_bytes (find_data ls).1 ≡ link_bytes ls
unfolding find_data contents link_bytes
find_data_lem [] = refl
find_data_lem (l ∷ ls) =
    found_bytes (skip_empty l) l ls (find_data ls) (contents-skip_empty l) (find_data_lem ls)

copy_any_lem :
    (copy_size : ℕ) (bs : List Buffer) (ls : List Link)
    → 0 < copy_size
    → (bs ≡ [] → ls ≡ [])
    → (cs : List Buffer) × (copy_found_links copy_size (bs, ls) ≡ some cs)
      × AllSound cs
      × (contents cs ≡ contents bs ++ link_bytes ls)
unfolding copy_found_links contents link_bytes
copy_any_lem copy_size [] ls c n = ([], refl, tt, ap link_bytes (sym (n refl)))
copy_any_lem copy_size (b ∷ bs) ls c n =
    let (done, tail, e, ds, ts, k) =
      copy_links_lem copy_size (new_copy copy_size) ((b ∷ bs) ∷ ls) c
        (new_copy-IsSound copy_size) in
    (
      done ++ (tail ∷ []),
      rw e refl,
      AllSound-append done (tail ∷ []) ds (ts, tt),
      contents_last done tail ∙ k ∙ rw (readable-new_copy copy_size) refl,
    )

none_in :
    (bs : List Buffer) (ls : List Link) (later : List Buffer × List Link)
    → (found_in bs ls later).0 ≡ []
    → (later.0 ≡ [] → later.1 ≡ [])
    → (found_in bs ls later).1 ≡ []
unfolding found_in
none_in [] ls later e h = h e
none_in (b ∷ bs) ls later e h = absurd (ground (arith, e))

-- nothing is found only if there are no links left
none_found : (ls : List Link) → (find_data ls).0 ≡ [] → (find_data ls).1 ≡ []
unfolding find_data
none_found [] e = refl
none_found (l ∷ ls) e = none_in (skip_empty l) ls (find_data ls) e (none_found ls)

-- BuffersCopy() of links makes one chain with the bytes of all of them.
pub buffers_copy_links_correct :
    (copy_size : ℕ) (links : List Link)
    → 0 < copy_size
    → (cs : List Buffer) × (buffers_copy_links copy_size links ≡ some cs)
      × AllSound cs
      × (contents cs ≡ link_bytes links)
unfolding buffers_copy_links
buffers_copy_links_correct copy_size links c =
    let (cs, e, s, k) =
      copy_any_lem copy_size (find_data links).0 (find_data links).1 c (none_found links) in
    (cs, e, s, k ∙ find_data_lem links)
