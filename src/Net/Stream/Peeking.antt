-- ===== src/Net/Stream/Peeking.antt =====
-- PeekData().
use serverbox.Prelude.{
  ℕ, zero, suc, ◌-◌, ◌≤◌, ◌<◌, ◌≡◌, refl, sym, ap, ◌∙◌, inl, inr, true, false, some, List, [], ◌∷◌,
  ◌++◌, arith, leb, ◌==◌, leb→le, Bool-cases, length, take, length-append, take-append_short,
  take-append_long, take-take,
}
use serverbox.Net.Buffer.{Buffer}
use serverbox.Net.Buffer.Contents.{AllSound, AllReserved, readable, contents, length-readable}
use serverbox.Net.Stream.{BufferStream}
use serverbox.Net.Stream.Shape.{Settled, IsOpen, bytes_of, IsStream}
use serverbox.Net.Stream.Reading.{peek_bytes, peek_data}

pub chain-AllSound :
    (front back : List Buffer) → Settled front back → IsOpen back → AllSound (front ++ back)
unfolding Settled IsOpen
chain-AllSound [] [] h o = tt
chain-AllSound [] (w ∷ rest) h (ws, lw, rs) = (ws, reserved rest rs)
  where
    reserved : (bs : List Buffer) → AllReserved bs → AllSound bs
    reserved [] h = tt
    reserved (b ∷ bs) (z, p, s, h) = (s, reserved bs h)
chain-AllSound (b ∷ bs) back (s, p, n, h) o = (s, chain-AllSound bs back h o)

peek_bytes_lem :
    (bs : List Buffer) (size : ℕ)
    → AllSound bs
    → 0 < size
    → size ≤ length (contents bs)
    → peek_bytes bs size ≡ some (take size (contents bs))
unfolding peek_bytes contents readable
peek_bytes_lem [] size h p le = absurd (omega (arith, p, le))
peek_bytes_lem (b ∷ bs) size (s, h) p le =
    let len = length-readable b s in
    let total = length-append (readable b) (contents bs) in
    elim (Bool-cases (leb size b.pos)) [
      | inl y ↦
          let fits = leb→le size b.pos y in
          let done : (size == size) ≡ true = ground arith in
          rw (y, done)
            (ap some (
              sym (
                take-append_short size (readable b) (contents bs) (omega (arith, len, fits))
                ∙ take-take size b.pos b.bytes fits)))
      | inr y ↦
          let more : b.pos < size = ground (arith, y) in
          let on : (size == b.pos) ≡ false = ground (arith, y) in
          let rest =
            peek_bytes_lem bs (size - b.pos) h (omega (arith, more))
              (omega (arith, le, total, len)) in
          rw (y, on, rest)
            (ap some (
              sym (
                take-append_long size (readable b) (contents bs) (omega (arith, len, more))
                ∙ ap (λ k. readable b ++ take (size - k) (contents bs)) len)))
    ]

-- PeekData() of no more bytes than a stream holds answers the bytes at its head.
pub peek_data_correct :
    (s : BufferStream) (size : ℕ)
    → IsStream s
    → size ≤ s.rsize
    → peek_data s size ≡ some (take size (bytes_of s))
unfolding peek_data bytes_of
peek_data_correct s zero i le = refl
peek_data_correct s (suc n) i le =
    let fits : leb (suc n) s.rsize ≡ true = ground (arith, le) in
    rw fits (
      peek_bytes_lem (s.front ++ s.back) (suc n)
        (chain-AllSound s.front s.back i.settled i.writable) (omega arith)
        (omega (arith, i.reads, le)))
