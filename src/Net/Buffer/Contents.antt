-- ===== src/Net/Buffer/Contents.antt =====
-- The bytes that a chain of buffers holds, and what the functions on chains do to them.
use serverbox.Prelude.{
  ℕ, ◌+◌, ◌-◌, ◌≤◌, ◌<◌, ◌≡◌, refl, sym, ap, ◌∙◌, some, List, [], ◌∷◌, ◌++◌, arith, length, take,
  drop, length-append, length-take, length-drop, length-replicate, take-append_short, drop-take,
  take_all, append_assoc,
}
use serverbox.Net.Buffer.{Buffer, room, propagate, store_bytes, new_copy, new_raw}

-- The position stays in the buffer, and the memory is as long as the capacity.
abbrev pub IsSound : Buffer → Type 0
IsSound b = (b.pos ≤ b.capacity) × (length b.bytes ≡ b.capacity)

abbrev pub AllSound : List Buffer → Type 0
AllSound [] = Unit
AllSound (b ∷ bs) = IsSound b × AllSound bs

abbrev pub room_of : List Buffer → ℕ
room_of [] = 0
room_of (b ∷ bs) = room b + room_of bs

-- The buffers that are reserved behind the first one that is written: empty, with room
abbrev pub AllReserved : List Buffer → Type 0
AllReserved [] = Unit
AllReserved (b ∷ bs) = (b.pos ≡ 0) × (0 < b.capacity) × IsSound b × AllReserved bs

unfoldable pub readable : Buffer → List ℕ
readable b = take b.pos b.bytes

unfoldable pub contents : List Buffer → List ℕ
contents [] = []
contents (b ∷ bs) = readable b ++ contents bs

pub length-readable : (b : Buffer) → IsSound b → length (readable b) ≡ b.pos
unfolding readable
length-readable b (le, e) = omega (arith, length-take b.pos b.bytes, le, e)

pub contents-append : (bs cs : List Buffer) → contents (bs ++ cs) ≡ contents bs ++ contents cs
unfolding contents
contents-append [] cs = refl
contents-append (b ∷ bs) cs =
    rw (contents-append bs cs, append_assoc (readable b) (contents bs) (contents cs)) refl

pub AllSound-append : (bs cs : List Buffer) → AllSound bs → AllSound cs → AllSound (bs ++ cs)
AllSound-append [] cs h k = k
AllSound-append (b ∷ bs) cs (s, h) k = (s, AllSound-append bs cs h k)

pub store_bytes-IsSound :
    (b : Buffer) (bytes : List ℕ)
    → IsSound b
    → length bytes ≤ room b
    → IsSound (store_bytes b bytes)
unfolding store_bytes room
store_bytes-IsSound b bytes (le, e) h =
    let n = b.pos + length bytes in
    (
      omega arith,
      omega (
        arith,
        length-append (take b.pos b.bytes ++ bytes) (drop n b.bytes),
        length-append (take b.pos b.bytes) bytes,
        length-take b.pos b.bytes,
        length-drop n b.bytes,
      ),
    )

pub readable-store_bytes :
    (b : Buffer) (bytes : List ℕ) → IsSound b → readable (store_bytes b bytes) ≡ readable b ++ bytes
unfolding store_bytes readable
readable-store_bytes b bytes (le, e) =
    let old = take b.pos b.bytes in
    let tail = drop (b.pos + length bytes) b.bytes in
    let size : length (old ++ bytes) ≡ b.pos + length bytes =
      omega (arith, length-append old bytes, length-take b.pos b.bytes) in
    take-append_short (b.pos + length bytes) (old ++ bytes) tail (omega (arith, size))
    ∙ ap (λ k. take k (old ++ bytes)) (sym size)
    ∙ take_all (old ++ bytes)

pub propagate_lem :
    (b : Buffer) (n : ℕ)
    → IsSound b
    → n ≤ b.pos
    → propagate b n
      ≡ some (record { pos = b.pos - n; capacity = b.capacity - n; bytes = drop n b.bytes })
unfolding propagate
propagate_lem b n (le, e) h = ground (arith, le, h)

-- What is left of a buffer
abbrev pub cut : Buffer → ℕ → Buffer
cut b n = record { pos = b.pos - n; capacity = b.capacity - n; bytes = drop n b.bytes }

pub cut-IsSound : (b : Buffer) (n : ℕ) → IsSound b → n ≤ b.pos → IsSound (cut b n)
cut-IsSound b n (le, e) h = (omega arith, omega (arith, length-drop n b.bytes))

pub readable-cut : (b : Buffer) (n : ℕ) → readable (cut b n) ≡ drop n (readable b)
unfolding readable
readable-cut b n = sym (drop-take n b.pos b.bytes)

pub new_copy-IsSound : (n : ℕ) → IsSound (new_copy n)
unfolding new_copy
new_copy-IsSound n = (omega arith, length-replicate n 0)

pub new_raw-IsSound : (bytes : List ℕ) → IsSound (new_raw bytes)
unfolding new_raw
new_raw-IsSound bytes = (omega arith, refl)

pub readable-new_copy : (n : ℕ) → readable (new_copy n) ≡ []
unfolding readable new_copy
readable-new_copy n = refl

pub readable-new_raw : (bytes : List ℕ) → readable (new_raw bytes) ≡ bytes
unfolding readable new_raw
readable-new_raw bytes = take_all bytes

pub no_data : (b : Buffer) → b.pos ≡ 0 → readable b ≡ []
unfolding readable
no_data b z = ap (λ n. take n b.bytes) z
