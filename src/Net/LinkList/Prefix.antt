-- ===== src/Net/LinkList/Prefix.antt =====
-- What SkipEmptyPrefix() leaves of a list of links.
use serverbox.Prelude.{
  ℕ, ◌-◌, ◌≤◌, ◌<◌, ◌≡◌, refl, sym, ap, ◌∙◌, ◌⊎◌, inl, inr, true, false, Option, none, some, List,
  [], ◌∷◌, ◌++◌, arith, ltb, ◌==◌, ltb→lt, Bool-cases, length, drop, drop-append_long, append_assoc,
}
use serverbox.Net.Buffer.{Buffer}
use serverbox.Net.Buffer.Contents.{IsSound, AllSound, readable, contents, length-readable, no_data}
use serverbox.Net.LinkList.{
  Link, Skipped, drop_used, drop_used_links, skip_empty_prefix, found, passed,
}
use serverbox.Net.LinkList.Skips.{link_bytes, LinksSound}

-- The offset is in the first buffer with data or at its end, or what holds of the rest of the list
abbrev pub UsedUpTo : List Buffer → ℕ → Type 0 → Type 0
UsedUpTo [] offset Behind = Behind
UsedUpTo (b ∷ bs) offset Behind =
    ((b.pos ≡ 0) × UsedUpTo bs offset Behind) ⊎ ((0 < b.pos) × (offset ≤ b.pos))

abbrev pub LinksUsedUpTo : List Link → ℕ → Type 0
LinksUsedUpTo [] offset = offset ≡ 0
LinksUsedUpTo (l ∷ ls) offset = UsedUpTo l offset (LinksUsedUpTo ls offset)

-- There is nothing left, or the first buffer has data behind the offset.
abbrev pub HasDataFirst : List Link → ℕ → Type 0
HasDataFirst [] offset = offset ≡ 0
HasDataFirst ([] ∷ ls) offset = ⊥
HasDataFirst ((b ∷ bs) ∷ ls) offset = offset < b.pos

abbrev pub Trimmed : Option (List Link × ℕ) → List ℕ → Type 0
Trimmed r bytes =
    (links : List Link) × (offset : ℕ) × (r ≡ some (links, offset))
    × LinksSound links
    × HasDataFirst links offset
    × (drop offset (link_bytes links) ≡ bytes)

unused : (bs : List Buffer) (Behind : Type 0) → Behind → UsedUpTo bs 0 Behind
unused [] Behind k = k
unused (b ∷ bs) Behind k = elim (Bool-cases (b.pos == 0)) [
  | inl y ↦ inl (ground (arith, y), unused bs Behind k)
  | inr y ↦ inr (ground (arith, y), omega arith)
]

links_unused : (ls : List Link) → LinksUsedUpTo ls 0
links_unused [] = refl
links_unused (l ∷ ls) = unused l (LinksUsedUpTo ls 0) (links_unused ls)

-- the outer loop, by what the search in a link finds
abbrev next_used : Option Skipped → List Link → Option (List Link × ℕ)
next_used none ls = none
next_used (some (found chain offset)) ls = some (chain ∷ ls, offset)
next_used (some (passed offset)) ls = drop_used_links ls offset

drop_used_lem :
    (bs : List Buffer) (ls : List Link) (offset : ℕ)
    → AllSound bs
    → LinksSound ls
    → ((o : ℕ) → LinksUsedUpTo ls o → Trimmed (drop_used_links ls o) (drop o (link_bytes ls)))
    → UsedUpTo bs offset (LinksUsedUpTo ls offset)
    → Trimmed (next_used (drop_used bs offset) ls) (drop offset (contents bs ++ link_bytes ls))
unfolding drop_used contents link_bytes
drop_used_lem [] ls offset h hs again u = again offset u
drop_used_lem (b ∷ bs) ls offset (s, h) hs again (inl (z, u)) =
    let empty : ltb 0 b.pos ≡ false = ground (arith, z) in
    rw (empty, no_data b z) (drop_used_lem bs ls offset h hs again u)
drop_used_lem (b ∷ bs) ls offset (s, h) hs again (inr (p, le)) =
    let full : ltb 0 b.pos ≡ true = ground (arith, p) in
    elim (Bool-cases (ltb offset b.pos)) [
      | inl y ↦
          rw (full, y) ((b ∷ bs) ∷ ls, offset, refl, ((s, h), hs), ltb→lt offset b.pos y, refl)
      | inr y ↦
          let e : offset ≡ b.pos = ground (arith, y, le) in
          let at_end : (offset == b.pos) ≡ true = ground (arith, e) in
          let behind : drop offset (readable b ++ contents bs ++ link_bytes ls)
              ≡ contents bs ++ link_bytes ls =
            ap (drop offset) (append_assoc (readable b) (contents bs) (link_bytes ls))
            ∙ drop-append_long offset (readable b) (contents bs ++ link_bytes ls)
                (omega (arith, length-readable b s, e))
            ∙ ap (λ n. drop n (contents bs ++ link_bytes ls)) (gone offset b s e) in
          rw (full, y, at_end, behind)
            (drop_used_lem bs ls 0 h hs again (unused bs (LinksUsedUpTo ls 0) (links_unused ls)))
    ]
  where
    gone : (offset : ℕ) (b : Buffer) → IsSound b → offset ≡ b.pos → offset - length (readable b) ≡ 0
    gone offset b s e = omega (arith, length-readable b s, e)

by_used :
    (r : Option Skipped) (ls : List Link)
    → (elim r [
      | none ↦ none
      | some (found chain offset1) ↦ some (chain ∷ ls, offset1)
      | some (passed offset1) ↦ drop_used_links ls offset1
    ])
      ≡ next_used r ls
by_used none ls = refl
by_used (some (found chain offset)) ls = refl
by_used (some (passed offset)) ls = refl

drop_used_links_lem :
    (links : List Link) (offset : ℕ)
    → LinksSound links
    → LinksUsedUpTo links offset
    → Trimmed (drop_used_links links offset) (drop offset (link_bytes links))
unfolding drop_used_links link_bytes
drop_used_links_lem [] offset h u = ([], offset, refl, tt, u, refl)
drop_used_links_lem (l ∷ ls) offset (s, h) u =
    let (links, o, a, sound, first, same) =
      drop_used_lem l ls offset s h (λ o k. drop_used_links_lem ls o h k) u in
    (links, o, by_used (drop_used l offset) ls ∙ a, sound, first, same)

-- SkipEmptyPrefix(), where the offset is in the first buffer with data or at its end: the bytes
-- behind the offset stay the same, and the first buffer then has some of them, or nothing is left.
pub skip_empty_prefix_correct :
    (links : List Link) (offset : ℕ)
    → LinksSound links
    → LinksUsedUpTo links offset
    → (links' : List Link) × (offset' : ℕ) × (skip_empty_prefix links offset
        ≡ some (links', offset'))
      × LinksSound links'
      × HasDataFirst links' offset'
      × (drop offset' (link_bytes links') ≡ drop offset (link_bytes links))
unfolding skip_empty_prefix
skip_empty_prefix_correct [] offset h u =
    let none_used : (offset == 0) ≡ true = ground (arith, u) in
    rw none_used ([], 0, refl, tt, refl, ap (λ n. drop n (link_bytes [])) (sym u))
skip_empty_prefix_correct ([] ∷ ls) offset h u = drop_used_links_lem ([] ∷ ls) offset h u
skip_empty_prefix_correct ((b ∷ bs) ∷ ls) offset h u = elim (Bool-cases (ltb offset b.pos)) [
  | inl y ↦ rw y ((b ∷ bs) ∷ ls, offset, refl, h, ltb→lt offset b.pos y, refl)
  | inr y ↦ rw y (drop_used_links_lem ((b ∷ bs) ∷ ls) offset h u)
]
