-- ===== src/Box/SubQueue/Sharing/Sound.antt =====
-- What consumers know of the sub-queue, and that the steps of others leave it true.
use serverbox.Prelude.{
  ℕ, suc, ◌<◌, ◌≤◌, ◌≡◌, ◌∙◌, sym, inl, inr, Option, none, some, List, [], ◌∷◌, ◌++◌, arith, ◌==◌,
  Bool-cases, ℕ_discrete,
}
use serverbox.Box.Links.{update}
use serverbox.Box.SubQueue.Sharing.{Phase, idle, looking, holding, Shared}
use serverbox.Box.SubQueue.{SubQueue}
use serverbox.Box.SubQueue.Contents.{Run, Contains, Run-le}
use serverbox.Box.SubQueue.Consumer.{taken}

-- What a consumer knows: the index that it has loaded is not ahead of the read index, and if it is
-- still the read index, then the item that it has loaded is still there.
abbrev pub IsSound : SubQueue → Phase → Type 0
IsSound q idle = 0 ≤ q.size
IsSound q (looking r) = r ≤ q.read
IsSound q (holding r none) = 0 ≤ q.size
IsSound q (holding r (some v)) = (r ≤ q.read) × (r ≡ q.read → (r < q.flush) × (q.cells r ≡ some v))

pub record IsFifo (s : Shared) : Type 0 where
  pub visible : List ℕ
  pub pending : List ℕ
  pub contains : Contains s.queue visible pending
  pub order : s.taken_items ++ (visible ++ pending) ≡ s.given_items
  pub sound : (c : ℕ) → IsSound s.queue (s.phase c)

-- Two arrays with the same items in a run agree on the run.
pub Run-agree :
    (cells cells' : ℕ → Option ℕ) (i : ℕ) (xs ys : List ℕ) (j k r : ℕ)
    → Run cells i xs j
    → Run cells' i (xs ++ ys) k
    → i ≤ r
    → r < j
    → (cells' r ≡ cells r) × (r < k)
Run-agree cells cells' i [] ys j k r s t h g = absurd (omega (arith, s))
Run-agree cells cells' i (x ∷ xs) ys j k r s t h g =
    let le = Run-le cells' (suc i) (xs ++ ys) k t.1 in
    elim (ℕ_discrete i r) [
      | yes e ↦ (rw (← e) (t.0 ∙ sym s.0), omega (arith, e, le))
      | no ne ↦ Run-agree cells cells' (suc i) xs ys j k r s.1 t.1 (omega (arith, ne)) g
    ]

-- The producer's operations leave what a consumer knows true.
pub produced-IsSound :
    (q q' : SubQueue) (vs ws ps ps' : List ℕ)
    → Contains q vs ps
    → Contains q' (vs ++ ws) ps'
    → q'.read ≡ q.read
    → (ph : Phase) → IsSound q ph
    → IsSound q' ph
produced-IsSound q q' vs ws ps ps' c d e idle i = omega arith
produced-IsSound q q' vs ws ps ps' c d e (looking r) i = omega (arith, i, e)
produced-IsSound q q' vs ws ps ps' c d e (holding r none) i = omega arith
produced-IsSound q q' vs ws ps ps' c d e (holding r (some v)) i = (
  omega (arith, i.0, e),
  λ same.
      let (inside, here) = i.1 (same ∙ e) in
      let (kept, below) =
        Run-agree q.cells q'.cells q.read vs ws q.flush q'.flush r c.run (rw e at d.run)
          (omega (arith, same, e)) inside in
      (below, kept ∙ here),
)

pub taken-IsSound : (q : SubQueue) (ph : Phase) → IsSound q ph → IsSound (taken q) ph
taken-IsSound q idle i = omega arith
taken-IsSound q (looking r) i = omega (arith, i)
taken-IsSound q (holding r none) i = omega arith
taken-IsSound q (holding r (some v)) i =
    (omega (arith, i.0), λ same. absurd (omega (arith, same, i.0)))

-- one consumer's phase is replaced
pub phase-IsSound :
    (q : SubQueue) (phase : ℕ → Phase) (c : ℕ) (ph : Phase)
    → IsSound q ph
    → ((d : ℕ) → IsSound q (phase d))
    → (d : ℕ) → IsSound q (update phase c ph d)
phase-IsSound q phase c ph i j d = elim (Bool-cases (c == d)) [
  | inl e ↦ rw e i
  | inr e ↦ rw e (j d)
]

pub moved-IsFifo :
    (s : Shared) (c : ℕ) (ph : Phase)
    → IsFifo s
    → IsSound s.queue ph
    → IsFifo (record s { phase = update s.phase c ph })
moved-IsFifo s c ph f i = record {
  visible = f.visible;
  pending = f.pending;
  contains = f.contains;
  order = f.order;
  sound = phase-IsSound s.queue s.phase c ph i f.sound;
}

-- A cell that is not null at the read index holds the first visible item.
pub visible_first :
    (q : SubQueue) (vs ps : List ℕ) (v : ℕ)
    → Contains q vs ps
    → q.read < q.flush
    → q.cells q.read ≡ some v
    → (ws : List ℕ) × (vs ≡ v ∷ ws)
visible_first q [] ps v c h e = absurd (omega (arith, h, c.run))
visible_first q (x ∷ ws) ps v c h e = (ws, ground (arith, c.run.0, e))

pub looked-IsSound :
    (q : SubQueue) (vs ps : List ℕ) (r : ℕ) (cell : Option ℕ)
    → Contains q vs ps
    → r ≤ q.read
    → q.cells r ≡ cell
    → IsSound q (holding r cell)
looked-IsSound q vs ps r none c h e = omega arith
looked-IsSound q [] ps r (some v) c h e =
    (h, λ same. absurd (ground (arith, same, c.run, c.ended, e)))
looked-IsSound q (x ∷ vs) ps r (some v) c h e =
    let le = Run-le q.cells (suc q.read) vs q.flush c.run.1 in
    (h, λ same. (omega (arith, same, le), e))
