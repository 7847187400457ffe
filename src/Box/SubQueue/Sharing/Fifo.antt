-- ===== src/Box/SubQueue/Sharing/Fifo.antt =====
-- The order of the items for all the consumers of a sub-queue together.
use serverbox.Prelude.{
  subst, ℕ, ◌≤◌, ◌≡◌, refl, ◌∙◌, sym, ap, inl, inr, Bool, true, Option, none, some, List, [], ◌∷◌,
  ◌++◌, arith, ◌==◌, ◌&&◌, Bool-cases,
}
use mathlib.Core.List.{append-nil, append_assoc}
use serverbox.Box.SubQueue.Sharing.{
  idle, looking, holding, Shared, finish, Step, enters, leaves, looks, swaps, pushes, pends,
  flushes, Reaches, still, then_step, start,
}
use serverbox.Box.SubQueue.{
  SubQueue, popped, load_cell, take_cell, create, push, push_pending, flush_pending,
}
use serverbox.Box.SubQueue.Contents.{Contains}
use serverbox.Box.SubQueue.Producer.{push-Contains}
use serverbox.Box.SubQueue.Pending.{push_pending_correct, flush_pending_correct, create-Contains}
use serverbox.Box.SubQueue.Consumer.{taken, taken-Contains}
use serverbox.Box.SubQueue.Sharing.Sound.{
  IsSound, IsFifo, produced-IsSound, taken-IsSound, phase-IsSound, moved-IsFifo, visible_first,
  looked-IsSound,
}

taken-IsFifo :
    (s : Shared) (c v : ℕ) (vs ps : List ℕ)
    → Contains s.queue (v ∷ vs) ps
    → s.taken_items ++ ((v ∷ vs) ++ ps) ≡ s.given_items
    → ((d : ℕ) → IsSound s.queue (s.phase d))
    → IsFifo (finish s c (inl (popped (some v)), taken s.queue))
unfolding finish
taken-IsFifo s c v vs ps k o sound = record {
  visible = vs;
  pending = ps;
  contains = taken-Contains s.queue v vs ps k;
  order = append_assoc s.taken_items (v ∷ []) (vs ++ ps) ∙ o;
  sound =
      phase-IsSound (taken s.queue) s.phase c idle (omega arith)
        (λ d. taken-IsSound s.queue (s.phase d) (sound d));
}

-- The end of a round: a cell with an item, from which the read index has not moved, is taken.
swapped-IsFifo :
    (s : Shared) (c r : ℕ) (cell : Option ℕ) (swapped : Bool)
    → IsFifo s
    → IsSound s.queue (holding r cell)
    → IsFifo (finish s c (take_cell s.queue r swapped cell))
unfolding take_cell finish
swapped-IsFifo s c r none swapped f i = moved-IsFifo s c idle f (omega arith)
swapped-IsFifo s c r (some v) swapped f i = elim (Bool-cases ((s.queue.read == r) && swapped)) [
  | inl yes_moved ↦
      let same : r ≡ s.queue.read = ground (arith, yes_moved) in
      let (inside, here) = i.1 same in
      let (ws, e) =
        visible_first s.queue f.visible f.pending v f.contains (omega (arith, inside, same))
          (rw (← same) here) in
      rw yes_moved
        (rw same (taken-IsFifo s c v ws f.pending (rw e at f.contains) (rw e at f.order) f.sound))
  | inr no_move ↦ rw no_move (moved-IsFifo s c (looking s.queue.read) f (omega arith))
]

-- What the producer does, with the items that it hands in
produced-IsFifo :
    (s : Shared) (q : SubQueue) (vs ws ps ps' items : List ℕ)
    → Contains s.queue vs ps
    → Contains q (vs ++ ws) ps'
    → q.read ≡ s.queue.read
    → s.taken_items ++ (vs ++ ps) ≡ s.given_items
    → ws ++ ps' ≡ ps ++ items
    → ((c : ℕ) → IsSound s.queue (s.phase c))
    → IsFifo (record s { queue = q; given_items = s.given_items ++ items })
produced-IsFifo s q vs ws ps ps' items c d e o j sound = record {
  visible = vs ++ ws;
  pending = ps';
  contains = d;
  order =
      ap (λ xs. s.taken_items ++ xs)
        (append_assoc vs ws ps' ∙ ap (λ xs. vs ++ xs) j ∙ sym (append_assoc vs ps items))
      ∙ sym (append_assoc s.taken_items (vs ++ ps) items)
      ∙ ap (λ xs. xs ++ items) o;
  sound = λ k. produced-IsSound s.queue q vs ws ps ps' c d e (s.phase k) (sound k);
}

-- An item that the producer hands in comes behind all the others.
pushed-IsFifo :
    (s : Shared) (item : ℕ) (q : SubQueue)
    → IsFifo s
    → push s.queue item ≡ some (true, q)
    → IsFifo (record s { queue = q; given_items = s.given_items ++ item ∷ [] })
pushed-IsFifo s item q f e = elim (push-Contains s.queue item f.visible f.pending f.contains) [
  | inl (full, refused) ↦ absurd (ground (arith, e, refused))
  | inr (q1, e1, c1, r1, s1) ↦
      let same : q1 ≡ q = ground (arith, e, e1) in
      subst (λ x. IsFifo (record s { queue = x; given_items = s.given_items ++ item ∷ [] })) same
        (produced-IsFifo s q1 f.visible (f.pending ++ item ∷ []) f.pending [] (item ∷ []) f.contains
          c1 r1 f.order (append-nil (f.pending ++ item ∷ [])) f.sound)
]

pended-IsFifo :
    (s : Shared) (item : ℕ) (q : SubQueue)
    → IsFifo s
    → push_pending s.queue item ≡ some (true, q)
    → IsFifo (record s { queue = q; given_items = s.given_items ++ item ∷ [] })
pended-IsFifo s item q f e =
    elim (push_pending_correct s.queue item f.visible f.pending f.contains) [
      | inl (full, refused) ↦ absurd (ground (arith, e, refused))
      | inr (q1, e1, c1, r1, s1) ↦
          let same : q1 ≡ q = ground (arith, e, e1) in
          subst (λ x. IsFifo (record s { queue = x; given_items = s.given_items ++ item ∷ [] }))
            same
            (produced-IsFifo s q1 f.visible [] f.pending (f.pending ++ item ∷ []) (item ∷ [])
              f.contains
              (subst (λ vs. Contains q1 vs (f.pending ++ item ∷ [])) (sym (append-nil f.visible))
                c1)
              r1 f.order refl f.sound)
    ]

flushed-IsFifo :
    (s : Shared) (b : Bool) (q : SubQueue)
    → IsFifo s
    → flush_pending s.queue ≡ some (b, q)
    → IsFifo (record s { queue = q })
flushed-IsFifo s b q f e =
    let (q1, e1, c1, r1, s1) = flush_pending_correct s.queue f.visible f.pending f.contains in
    let same : q1 ≡ q = ground (arith, e, e1) in
    let shown =
      produced-IsFifo s q1 f.visible f.pending f.pending [] [] f.contains c1 r1 f.order refl
        f.sound in
    subst (λ x. IsFifo (record s { queue = x })) same
      (subst (λ xs. IsFifo (record s { queue = q1; given_items = xs })) (append-nil s.given_items)
        shown)

Step-IsFifo : (s t : Shared) → IsFifo s → Step s t → IsFifo t
Step-IsFifo s _ f (enters _ c e) = moved-IsFifo s c (looking s.queue.read) f (omega arith)
Step-IsFifo s _ f (leaves _ c r e full) = moved-IsFifo s c idle f (omega arith)
Step-IsFifo s _ f (looks _ c r cell e room g) =
    let behind : r ≤ s.queue.read = subst (IsSound s.queue) e (f.sound c) in
    let here : s.queue.cells r ≡ cell = unfold load_cell in ground (arith, g) in
    moved-IsFifo s c (holding r cell) f
      (looked-IsSound s.queue f.visible f.pending r cell f.contains behind here)
Step-IsFifo s _ f (swaps _ c r cell swapped e) =
    swapped-IsFifo s c r cell swapped f (subst (IsSound s.queue) e (f.sound c))
Step-IsFifo s _ f (pushes _ item q e) = pushed-IsFifo s item q f e
Step-IsFifo s _ f (pends _ item q e) = pended-IsFifo s item q f e
Step-IsFifo s _ f (flushes _ b q e) = flushed-IsFifo s b q f e

Reaches-IsFifo : (s t : Shared) → IsFifo s → Reaches s t → IsFifo t
Reaches-IsFifo s _ f (still _) = f
Reaches-IsFifo s u f (then_step _ t _ reached stepped) =
    Step-IsFifo t u (Reaches-IsFifo s t f reached) stepped

-- From a new sub-queue, after any steps of the producer and of any number of consumers, the items
-- that consumers were answered, then those they still see, then the pending ones, are exactly the
-- items handed in, in their order: none is lost, doubled or overtaken.
pub fifo_kept :
    (size : ℕ) (cells : ℕ → Option ℕ) (q : SubQueue) (s : Shared)
    → create size cells ≡ some q
    → Reaches (start q) s
    → (visible : List ℕ) × (pending : List ℕ) × Contains s.queue visible pending
      × (s.taken_items ++ (visible ++ pending) ≡ s.given_items)
fifo_kept size cells q s e reached =
    let (q1, e1, c, _, _) = create-Contains size cells in
    let same : q1 ≡ q = ground (arith, e, e1) in
    let first : IsFifo (start q) = record {
      visible = [];
      pending = [];
      contains = subst (λ x. Contains x [] []) same c;
      order = refl;
      sound = λ c. omega arith;
    } in
    let f = Reaches-IsFifo (start q) s first reached in (f.visible, f.pending, f.contains, f.order)
