-- ===== src/Net/LinkList/Tests.antt =====
-- Runs over two links, and the theorem at them.
use serverbox.Prelude.{ℕ, ◌+◌, ◌≡◌, refl, some, List, [], ◌∷◌, arith, drop}
use serverbox.Net.LinkList.{Link, skip_chain, skip_links, skip_link_data}
use serverbox.Net.Buffer.Contents.{contents, readable}
use serverbox.Net.LinkList.Kept.{IsRest}
use serverbox.Net.LinkList.Skips.{link_bytes, LinksSound, StartsInFirst, skip_link_data_correct}

abbrev two_links : List Link
two_links =
    (record { pos = 2; capacity = 2; bytes = 1 ∷ 2 ∷ [] }
      ∷ record { pos = 0; capacity = 1; bytes = 0 ∷ [] }
      ∷ [])
    ∷ (record { pos = 3; capacity = 4; bytes = 4 ∷ 5 ∷ 6 ∷ 0 ∷ [] } ∷ [])
    ∷ []

into_second :
    skip_link_data two_links 1 2
    ≡ some ((record { pos = 3; capacity = 4; bytes = 4 ∷ 5 ∷ 6 ∷ 0 ∷ [] } ∷ []) ∷ [], 1)
unfolding skip_link_data skip_links skip_chain
into_second = refl

skip_link_data_correct_example :
    (links : List Link) × (offset : ℕ) × (skip_link_data two_links 1 2 ≡ some (links, offset))
    × LinksSound links
    × StartsInFirst links offset
    × (drop offset (link_bytes links) ≡ drop (2 + 1) (link_bytes two_links))
    × IsRest two_links links
unfolding link_bytes contents readable
skip_link_data_correct_example =
    skip_link_data_correct two_links 1 2
      (((omega arith, refl), ((omega arith, refl), tt)), (((omega arith, refl), tt), tt))
      (omega arith)
