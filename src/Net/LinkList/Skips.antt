-- ===== src/Net/LinkList/Skips.antt =====
-- What SkipData() and SkipEmptyPrefix() leave of a list of links.
use serverbox.Prelude.{
  ℕ, zero, suc, ◌+◌, ◌-◌, ◌≤◌, ◌<◌, ◌≡◌, refl, sym, ap, ◌∙◌, ◌⊎◌, inl, inr, Option, some, List, [],
  ◌∷◌, ◌++◌, arith, ltb, ltb→lt, Bool-cases, length, drop, length-append, drop-append_short,
  drop-append_long,
}
use serverbox.Net.Buffer.{Buffer}
use serverbox.Net.Buffer.Contents.{IsSound, AllSound, readable, contents, length-readable}
use serverbox.Net.LinkList.{Link, Skipped, skip_chain, skip_links, skip_link_data, found, passed}
use serverbox.Net.LinkList.Kept.{next_link, by_search, IsRest, skip_links-IsRest}

-- The bytes of all links
unfoldable pub link_bytes : List Link → List ℕ
link_bytes [] = []
link_bytes (l ∷ ls) = contents l ++ link_bytes ls

abbrev pub LinksSound : List Link → Type 0
LinksSound [] = Unit
LinksSound (l ∷ ls) = AllSound l × LinksSound ls

-- The offset is in the first buffer.
abbrev pub StartsInFirst : List Link → ℕ → Type 0
StartsInFirst [] offset = offset ≡ 0
StartsInFirst ([] ∷ ls) offset = offset ≡ 0
StartsInFirst ((b ∷ bs) ∷ ls) offset = (offset ≡ 0) ⊎ (offset < b.pos)

-- What the search for a byte in a chain finds
Search : Skipped → List Buffer → ℕ → Type 0
Search (passed left) bs count =
    (length (contents bs) ≤ count) × (left ≡ count - length (contents bs))
Search (found [] offset) bs count = ⊥
Search (found (c ∷ cs) offset) bs count =
    (offset < c.pos)
    × AllSound (c ∷ cs)
    × (drop offset (contents (c ∷ cs)) ≡ drop count (contents bs))
    × (count < length (contents bs))

behind :
    (b : Buffer) (bs : List Buffer) (count : ℕ) (r : Skipped)
    → IsSound b
    → b.pos ≤ count
    → Search r bs (count - b.pos)
    → Search r (b ∷ bs) count
unfolding Search contents
behind b bs count (passed left) s le (h, e) =
    let total = length-append (readable b) (contents bs) in
    let len = length-readable b s in
    (omega (arith, total, len, h, le), omega (arith, total, len, e, le))
behind b bs count (found [] offset) s le i = i
behind b bs count (found (c ∷ cs) offset) s le (lt, cs_s, e, more) =
    let total = length-append (readable b) (contents bs) in
    let len = length-readable b s in
    let same : drop (count - b.pos) (contents bs) ≡ drop count (readable b ++ contents bs) = sym (
      drop-append_long count (readable b) (contents bs) (omega (arith, len, le))
      ∙ ap (λ n. drop (count - n) (contents bs)) len) in
    (lt, cs_s, e ∙ same, omega (arith, total, len, more, le))

skip_chain_lem :
    (bs : List Buffer) (count : ℕ) → AllSound bs → Search (skip_chain bs count) bs count
unfolding skip_chain Search contents
skip_chain_lem [] count h = (omega arith, omega arith)
skip_chain_lem (b ∷ bs) count (s, h) = elim (Bool-cases (ltb count b.pos)) [
  | inl y ↦
      let lt = ltb→lt count b.pos y in
      rw y (
        lt,
        (s, h),
        refl,
        omega (arith, lt, length-append (readable b) (contents bs), length-readable b s),
      )
  | inr y ↦ rw y (
      behind b bs count (skip_chain bs (count - b.pos)) s (ground (arith, y))
        (skip_chain_lem bs (count - b.pos) h))
]

-- The links left, from some byte on
abbrev pub From : Option (List Link × ℕ) → List ℕ → Type 0
From r bytes =
    (links : List Link) × (offset : ℕ) × (r ≡ some (links, offset))
    × LinksSound links
    × StartsInFirst links offset
    × (drop offset (link_bytes links) ≡ bytes)

next_link_lem :
    (r : Skipped) (l : Link) (ls : List Link) (count : ℕ)
    → LinksSound ls
    → Search r l count
    → ((left : ℕ)
        → left ≡ count - length (contents l)
        → From (skip_links ls left) (drop left (link_bytes ls)))
    → From (next_link r ls) (drop count (contents l ++ link_bytes ls))
unfolding Search link_bytes contents
next_link_lem (passed left) l ls count h (le, e) again =
    let (links, offset, a, s, st, c) = again left e in
    (
      links,
      offset,
      a,
      s,
      st,
      c
          ∙ ap (λ n. drop n (link_bytes ls)) e
          ∙ sym (drop-append_long count (contents l) (link_bytes ls) le),
    )
next_link_lem (found [] offset) l ls count h i again = absurd i
next_link_lem (found (b ∷ bs) offset) l ls count h (lt, s, e, more) again =
    let first : length (contents (b ∷ bs)) ≡ length (readable b ++ contents bs) = refl in
    let inside : offset ≤ length (contents (b ∷ bs)) =
      omega (arith, lt, length-append (readable b) (contents bs), length-readable b s.0, first) in
    (
      (b ∷ bs) ∷ ls,
      offset,
      refl,
      (s, h),
      inr lt,
      drop-append_short offset (contents (b ∷ bs)) (link_bytes ls) inside
          ∙ ap (λ k. k ++ link_bytes ls) e
          ∙ sym (drop-append_short count (contents l) (link_bytes ls) (omega (arith, more))),
    )

starts_clean : (links : List Link) → StartsInFirst links 0
starts_clean [] = refl
starts_clean ([] ∷ ls) = refl
starts_clean ((b ∷ bs) ∷ ls) = inl refl

skip_links_lem :
    (links : List Link) (count : ℕ)
    → LinksSound links
    → count ≤ length (link_bytes links)
    → From (skip_links links count) (drop count (link_bytes links))
unfolding skip_links link_bytes
skip_links_lem links zero h le = (links, 0, refl, h, starts_clean links, refl)
skip_links_lem [] (suc n) h le = absurd (omega (arith, le))
skip_links_lem (l ∷ ls) (suc n) (s, h) le =
    let total = length-append (contents l) (link_bytes ls) in
    let r = skip_chain l (suc n) in
    let (links, offset, a, sound, starts, same) =
      next_link_lem r l ls (suc n) h (skip_chain_lem l (suc n) s)
        (λ left e. skip_links_lem ls left h (omega (arith, e, le, total))) in
    (links, offset, by_search r ls ∙ a, sound, starts, same)

-- SkipData() of no more bytes than the links hold behind the offset drops exactly these: the new
-- offset is in the first buffer, or 0. The links that are left are the last ones of the old, with the
-- same buffers, of which the first link may have lost some at its head.
pub skip_link_data_correct :
    (links : List Link) (offset count : ℕ)
    → LinksSound links
    → count + offset ≤ length (link_bytes links)
    → (links' : List Link) × (offset' : ℕ) × (skip_link_data links offset count
        ≡ some (links', offset'))
      × LinksSound links'
      × StartsInFirst links' offset'
      × (drop offset' (link_bytes links') ≡ drop (count + offset) (link_bytes links))
      × IsRest links links'
unfolding skip_link_data
skip_link_data_correct links offset count h le =
    let (links', offset', e, s, st, b) = skip_links_lem links (count + offset) h le in
    (links', offset', e, s, st, b, skip_links-IsRest links links' (count + offset) offset' e)
