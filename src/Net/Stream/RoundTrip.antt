-- ===== src/Net/Stream/RoundTrip.antt =====
-- WriteCopy() and then ReadData().
use serverbox.Prelude.{
  ℕ, ◌+◌, ◌-◌, ◌<◌, ◌≡◌, refl, ap, ◌∙◌, some, List, [], arith, ◌>>=◌, length, drop, length-append,
  drop-append_long, take_all, drop_all,
}
use serverbox.Net.Stream.{BufferStream, write_copy}
use serverbox.Net.Stream.Shape.{bytes_of, IsStream}
use serverbox.Net.Stream.Reading.{read_data, skip_data}
use serverbox.Net.Stream.Appending.{Fits, write_copy_correct}
use serverbox.Net.Stream.Draining.{read_data_correct}
use serverbox.Net.Stream.Skipping.{skip_data-read_data}

-- Bytes that are written to a stream come out of it again, once what stood before them has been
-- skipped, and then the stream holds none. No buffers may be reserved behind the one at the write
-- position unless the bytes leave room in that one.
pub write_copy-read_data :
    (copy_size : ℕ) (s : BufferStream) (bytes : List ℕ)
    → 0 < copy_size
    → IsStream s
    → Fits s.back bytes
    → (s' : BufferStream) × ((write_copy copy_size s bytes >>= λ s1.
          skip_data s1 s.rsize >>= λ s2. read_data s2 (length bytes))
        ≡ some (bytes, s'))
      × IsStream s'
      × (bytes_of s' ≡ [])
write_copy-read_data copy_size s bytes c i f =
    let (s1, e1, i1, c1) = write_copy_correct copy_size s bytes c i f in
    let all = length-append (bytes_of s) bytes in
    let size1 : s1.rsize ≡ s.rsize + length bytes =
      omega (arith, i1.reads, ap length c1, all, i.reads) in
    let (s2, e2, i2, c2) = read_data_correct s1 s.rsize i1 (omega (arith, size1)) in
    let skipped : skip_data s1 s.rsize ≡ some s2 = skip_data-read_data s1 s.rsize i1 ∙ rw e2 refl in
    let none_before : s.rsize - length (bytes_of s) ≡ 0 = omega (arith, i.reads) in
    let left : bytes_of s2 ≡ bytes =
      c2
      ∙ ap (drop s.rsize) c1
      ∙ drop-append_long s.rsize (bytes_of s) bytes (omega (arith, i.reads))
      ∙ ap (λ n. drop n bytes) none_before in
    let (s3, e3, i3, c3) =
      read_data_correct s2 (length bytes) i2 (omega (arith, i2.reads, ap length left)) in
    (
      s3,
      rw (e1, skipped, e3) (rw left (ap (λ k. some (k, s3)) (take_all bytes))),
      i3,
      c3 ∙ ap (drop (length bytes)) left ∙ drop_all (length bytes) bytes (omega arith),
    )
