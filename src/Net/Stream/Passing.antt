-- ===== src/Net/Stream/Passing.antt =====
-- BuffersPropagateOnWrite() over buffers that have been written to.
use serverbox.Prelude.{
  ℕ, zero, suc, ◌+◌, ◌-◌, ◌≤◌, ◌<◌, ◌≡◌, refl, sym, ap, ◌∙◌, inl, inr, true, Option, some, List, [],
  ◌∷◌, ◌++◌, arith, ltb, ◌==◌, ltb→lt, Bool-cases, ◌>>=◌, length, take, drop, length-drop,
  take-append-drop, take-append_short, take-append_long, take_all, take_add, append-nil,
  append_assoc,
}
use serverbox.Net.Buffer.{Buffer, room, propagate_on_write}
use serverbox.Net.Buffer.Contents.{IsSound, room_of, AllReserved, readable, contents}
use serverbox.Net.Stream.Shape.{IsOpen, contents-reserved}

-- The memory from the write position on
unfoldable pub spares : List Buffer → List ℕ
spares [] = []
spares (b ∷ bs) = drop b.pos b.bytes ++ spares bs

-- The buffers that have been passed
unfoldable pub AllFull : List Buffer → Type 0
AllFull [] = Unit
AllFull (b ∷ bs) = IsSound b × (0 < b.pos) × (b.pos ≡ b.capacity) × AllFull bs

pub record Passed (result : Option (List Buffer × List Buffer)) (old : List Buffer) (size : ℕ)
    (passed : List Buffer) (w : Buffer) (rest : List Buffer) : Type 0 where
  pub answer : result ≡ some (passed, w ∷ rest)
  pub full : AllFull passed
  pub sound : IsSound w
  pub has_data : 0 < w.pos
  pub reserved : AllReserved rest
  pub less_room : room_of (w ∷ rest) + size ≡ room_of old
  pub filled : contents (passed ++ (w ∷ rest)) ≡ contents old ++ take size (spares old)

-- the step of a position over memory
readable-step :
    (b : Buffer) (n : ℕ)
    → readable (record b { pos = b.pos + n }) ≡ readable b ++ take n (drop b.pos b.bytes)
unfolding readable
readable-step b n = take_add b.pos n b.bytes

-- the position ends up in the first buffer
pass_none :
    (r : Option (List Buffer × List Buffer)) (w : Buffer) (rest : List Buffer) (size : ℕ)
    → 0 < size
    → size ≤ room w
    → IsSound w
    → AllReserved rest
    → r ≡ some ([], record w { pos = w.pos + size } ∷ rest)
    → Passed r (w ∷ rest) size [] (record w { pos = w.pos + size }) rest
unfolding room contents AllFull spares
pass_none r w rest size p h (le, e) rs a =
    let none_behind = contents-reserved rest rs in
    let long : size ≤ length (drop w.pos w.bytes) =
      omega (arith, length-drop w.pos w.bytes, h, e) in
    record {
      answer = a;
      full = tt;
      sound = (omega (arith, h, le), e);
      has_data = omega (arith, p);
      reserved = rs;
      less_room = omega (arith, h);
      filled =
          rw
            (
              none_behind,
              readable-step w size,
              take-append_short size (drop w.pos w.bytes) (spares rest) long,
              append-nil (readable w),
            )
            (append-nil (readable w ++ take size (drop w.pos w.bytes)));
    }

-- one buffer is filled, and the step goes on
pass_full :
    (r : Option (List Buffer × List Buffer)) (w : Buffer) (rest passed : List Buffer) (v : Buffer)
    (more : List Buffer) (size : ℕ)
    → IsSound w
    → w.pos < w.capacity
    → room w < size
    → AllReserved rest
    → Passed r rest (size - room w) passed v more
    → Passed
        (r >>= λ (passed, found). some (record w { pos = w.capacity } ∷ passed, found))
        (w ∷ rest)
        size
        (record w { pos = w.capacity } ∷ passed)
        v
        more
unfolding room contents AllFull spares readable
pass_full r w rest passed v more size (le, e) lt h rs c =
    let spare = drop w.pos w.bytes in
    let old = take w.pos w.bytes in
    let behind = take (size - room w) (spares rest) in
    let len : length spare ≡ w.capacity - w.pos = omega (arith, length-drop w.pos w.bytes, e) in
    let whole : take w.capacity w.bytes ≡ old ++ spare =
      ap (λ n. take n w.bytes) (sym e) ∙ take_all w.bytes ∙ sym (take-append-drop w.pos w.bytes) in
    let none_behind = contents-reserved rest rs in
    let later : take size (spare ++ spares rest) ≡ spare ++ behind =
      take-append_long size spare (spares rest) (omega (arith, len, h))
      ∙ ap (λ n. spare ++ take (size - n) (spares rest)) len in
    record {
      answer = rw c.answer refl;
      full = ((omega arith, e), omega (arith, lt), refl, c.full);
      sound = c.sound;
      has_data = c.has_data;
      reserved = c.reserved;
      less_room = omega (arith, c.less_room, h, lt);
      filled =
          rw (whole, later, c.filled, none_behind, append-nil old) (append_assoc old spare behind);
    }

whole_room :
    (w : Buffer) (size : ℕ) → w.pos < w.capacity → room w ≡ size → w.capacity ≡ w.pos + size
unfolding room
whole_room w size lt h = omega (arith, lt, h)

pass_here :
    (rest : List Buffer) (w : Buffer) (n : ℕ) {r : Option (List Buffer × List Buffer)}
    → IsSound w
    → AllReserved rest
    → suc n ≤ room w
    → r ≡ some ([], record w { pos = w.pos + suc n } ∷ rest)
    → (passed : List Buffer) × (v : Buffer) × (more : List Buffer) × Passed r
        (w ∷ rest)
        (suc n)
        passed
        v
        more
pass_here rest w n ws rs h a =
    ([], record w { pos = w.pos + suc n }, rest, pass_none _ w rest (suc n) (omega arith) h ws rs a)

pub pass_lem :
    (rest : List Buffer) (w : Buffer) (size : ℕ)
    → 0 < size
    → size ≤ room_of (w ∷ rest)
    → IsOpen (w ∷ rest)
    → (passed : List Buffer) × (v : Buffer) × (more : List Buffer) × Passed
        (propagate_on_write (w ∷ rest) size)
        (w ∷ rest)
        size
        passed
        v
        more
unfolding propagate_on_write IsOpen
pass_lem rest w zero p h o = elim p [ ]
pass_lem [] w (suc n) p h (ws, lw, rs) =
    let fits : suc n ≤ room w = omega (arith, h) in
    elim (Bool-cases (ltb (suc n) (room w))) [
      | inl y ↦ pass_here [] w n ws rs fits (rw y refl)
      | inr y ↦
          let z : (room w == suc n) ≡ true = ground (arith, y, fits) in
          let size : w.capacity ≡ w.pos + suc n = whole_room w (suc n) lw (ground (arith, z)) in
          pass_here [] w n ws rs fits
            (rw (y, z) (ap (λ k. some ([], record w { pos = k } ∷ [])) size))
    ]
pass_lem (x ∷ rest) w (suc n) p h (ws, lw, (xz, xp, xs, rs)) =
    elim (Bool-cases (ltb (suc n) (room w))) [
      | inl y ↦
          let lt = ltb→lt (suc n) (room w) y in
          pass_here (x ∷ rest) w n ws (xz, xp, xs, rs) (omega (arith, lt)) (rw y refl)
      | inr y ↦ elim (Bool-cases (room w == suc n)) [
        | inl z ↦
            let size : w.capacity ≡ w.pos + suc n = whole_room w (suc n) lw (ground (arith, z)) in
            pass_here (x ∷ rest) w n ws (xz, xp, xs, rs) (ground (arith, z))
              (rw (y, z) (ap (λ k. some ([], record w { pos = k } ∷ x ∷ rest)) size))
        | inr z ↦
            let lt : room w < suc n = ground (arith, y, z) in
            let (passed, v, more, c) =
              pass_lem rest x (suc n - room w) (omega (arith, lt)) (omega (arith, h, lt))
                (xs, omega (arith, xz, xp), rs) in
            (
              record w { pos = w.capacity } ∷ passed,
              v,
              more,
              rw (y, z)
                  (pass_full _ w (x ∷ rest) passed v more (suc n) ws lw lt (xz, xp, xs, rs) c),
            )
      ]
    ]
