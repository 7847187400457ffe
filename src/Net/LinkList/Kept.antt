-- ===== src/Net/LinkList/Kept.antt =====
-- Which links and buffers SkipData() leaves. The buffers are shared, so they must stay as they are.
use serverbox.Prelude.{
  ℕ, zero, suc, ◌-◌, ◌≡◌, refl, sym, ap, subst, ◌⊎◌, inl, inr, Option, none, some, List, [], ◌∷◌,
  ◌++◌, ltb, Bool-cases,
}
use serverbox.Net.Buffer.{Buffer}
use serverbox.Net.LinkList.{Link, Skipped, skip_chain, skip_links, found, passed}

-- the outer loop, by what the search in the first link finds
abbrev pub next_link : Skipped → List Link → Option (List Link × ℕ)
next_link (found chain offset) ls = some (chain ∷ ls, offset)
next_link (passed left) ls = skip_links ls left

pub by_search :
    (r : Skipped) (ls : List Link)
    → (elim r [ found chain offset ↦ some (chain ∷ ls, offset) | passed left ↦ skip_links ls left ])
      ≡ next_link r ls
by_search (found chain offset) ls = refl
by_search (passed left) ls = refl

-- There are no links, or the last ones of the others, the first of them without some buffers at its
-- head.
abbrev pub IsRest : List Link → List Link → Type 0
IsRest links rest =
    (rest ≡ [])
    ⊎ ((gone : List Link) × (head : List Buffer) × (chain : List Buffer) × (behind : List Link)
        × (rest ≡ chain ∷ behind)
        × (links ≡ gone ++ ((head ++ chain) ∷ behind)))

abbrev LeavesRest : Option (List Link × ℕ) → List Link → Type 0
LeavesRest none links = Unit
LeavesRest (some (rest, offset)) links = IsRest links rest

abbrev CutFrom : Skipped → List Buffer → Type 0
CutFrom (found chain offset) bs = (head : List Buffer) × (bs ≡ head ++ chain)
CutFrom (passed left) bs = Unit

CutFrom-cons : (r : Skipped) (b : Buffer) (bs : List Buffer) → CutFrom r bs → CutFrom r (b ∷ bs)
CutFrom-cons (found chain offset) b bs (head, e) = (b ∷ head, ap (λ k. b ∷ k) e)
CutFrom-cons (passed left) b bs h = tt

skip_chain-CutFrom : (bs : List Buffer) (count : ℕ) → CutFrom (skip_chain bs count) bs
unfolding skip_chain
skip_chain-CutFrom [] count = tt
skip_chain-CutFrom (b ∷ bs) count = elim (Bool-cases (ltb count b.pos)) [
  | inl y ↦ rw y ([], refl)
  | inr y ↦
      rw y
        (CutFrom-cons (skip_chain bs (count - b.pos)) b bs (skip_chain-CutFrom bs (count - b.pos)))
]

LeavesRest-cons :
    (r : Option (List Link × ℕ)) (l : Link) (ls : List Link)
    → LeavesRest r ls
    → LeavesRest r (l ∷ ls)
LeavesRest-cons none l ls h = tt
LeavesRest-cons (some (rest, offset)) l ls (inl e) = inl e
LeavesRest-cons (some (rest, offset)) l ls (inr (gone, head, chain, behind, e, f)) =
    inr (l ∷ gone, head, chain, behind, e, ap (λ k. l ∷ k) f)

next_link-LeavesRest :
    (r : Skipped) (l : Link) (ls : List Link)
    → CutFrom r l
    → ((left : ℕ) → LeavesRest (skip_links ls left) ls)
    → LeavesRest (next_link r ls) (l ∷ ls)
next_link-LeavesRest (found chain offset) l ls (head, e) h =
    inr ([], head, chain, ls, refl, ap (λ k. k ∷ ls) e)
next_link-LeavesRest (passed left) l ls c h = LeavesRest-cons (skip_links ls left) l ls (h left)

all_left : (links : List Link) → IsRest links links
all_left [] = inl refl
all_left (l ∷ ls) = inr ([], [], l, ls, refl, refl)

skip_links-LeavesRest : (links : List Link) (count : ℕ) → LeavesRest (skip_links links count) links
unfolding skip_links
skip_links-LeavesRest links zero = all_left links
skip_links-LeavesRest [] (suc n) = tt
skip_links-LeavesRest (l ∷ ls) (suc n) =
    let r = skip_chain l (suc n) in
    subst (λ k. LeavesRest k (l ∷ ls)) (sym (by_search r ls))
      (next_link-LeavesRest r l ls (skip_chain-CutFrom l (suc n))
        (λ left. skip_links-LeavesRest ls left))

pub skip_links-IsRest :
    (links rest : List Link) (count offset : ℕ)
    → skip_links links count ≡ some (rest, offset)
    → IsRest links rest
skip_links-IsRest links rest count offset e =
    subst (λ k. LeavesRest k links) e (skip_links-LeavesRest links count)
