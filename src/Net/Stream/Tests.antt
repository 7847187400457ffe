-- ===== src/Net/Stream/Tests.antt =====
-- Runs of a stream of two buffers, and the theorems at it.
use serverbox.Prelude.{
  ℕ, ◌<◌, ◌⊎◌, ◌≤◌, ◌≡◌, refl, inl, none, some, List, [], ◌∷◌, ◌++◌, arith, ◌>>=◌, take, drop,
}
use serverbox.Net.Buffer.{Buffer, room, propagate, new_copy}
use serverbox.Net.Buffer.Contents.{readable, contents}
use serverbox.Net.Stream.{
  BufferStream, reserve_loop, check_wpos, ensure_write_size, propagate_write_pos, write_copy,
  at_wpos,
}
use serverbox.Net.Stream.Shape.{Settled, IsOpen, read_end, bytes_of, IsStream}
use serverbox.Net.Stream.Reading.{
  read_bytes, rejoin, drop_empty_head, check_read, read_data, skip_data,
}
use serverbox.Net.Stream.Linking.{pop_data, write_ref}
use serverbox.Net.Stream.Appending.{write_copy_correct}
use serverbox.Net.Stream.Failing.{IsBroken, write_copy_fails}
use serverbox.Net.Stream.Draining.{read_data_correct}
use serverbox.Net.Stream.Skipping.{skip_data-read_data}
use serverbox.Net.Stream.Reserving.{ensure_write_size_correct}
use serverbox.Net.Stream.Passing.{spares}
use serverbox.Net.Stream.Filling.{propagate_write_pos_correct}
use serverbox.Net.Stream.Popping.{pop_data_correct}
use serverbox.Net.Stream.Referring.{write_ref_correct}
use serverbox.Net.Stream.RoundTrip.{write_copy-read_data}

-- a full buffer, and one with room for three bytes
abbrev two_buffers : BufferStream
two_buffers = record {
  front = record { pos = 2; capacity = 2; bytes = 1 ∷ 2 ∷ [] } ∷ [];
  back = record { pos = 1; capacity = 4; bytes = 3 ∷ 7 ∷ 8 ∷ 9 ∷ [] } ∷ [];
  rsize = 3;
  wsize = 3;
  rend = some at_wpos;
}

two_buffers-IsStream : IsStream two_buffers
unfolding Settled IsOpen bytes_of contents readable read_end room
two_buffers-IsStream = record {
  settled = ((omega arith, refl), omega arith, inl refl, tt);
  writable = ((omega arith, refl), omega arith, tt);
  reads = refl;
  writes = refl;
  marks = refl;
}

read_across :
    read_data two_buffers 3
    ≡ some (
      1 ∷ 2 ∷ 3 ∷ [],
      record {
        front = [];
        back = record { pos = 0; capacity = 3; bytes = 7 ∷ 8 ∷ 9 ∷ [] } ∷ [];
        rsize = 0;
        wsize = 3;
        rend = none;
      },
    )
unfolding read_data read_bytes rejoin drop_empty_head check_read propagate
read_across = refl

-- the same with a buffer reserved
abbrev third_buffer : Buffer
third_buffer = record { pos = 0; capacity = 4; bytes = 0 ∷ 0 ∷ 0 ∷ 0 ∷ [] }

abbrev three_buffers : BufferStream
three_buffers = record two_buffers { back = two_buffers.back ++ (third_buffer ∷ []); wsize = 7 }

three_buffers-IsStream : IsStream three_buffers
unfolding Settled IsOpen bytes_of contents readable read_end room
three_buffers-IsStream = record {
  settled = ((omega arith, refl), omega arith, inl refl, tt);
  writable = ((omega arith, refl), omega arith, (refl, omega arith, (omega arith, refl), tt));
  reads = refl;
  writes = refl;
  marks = refl;
}

reserved_third : ensure_write_size 4 two_buffers 5 ≡ some three_buffers
unfolding ensure_write_size reserve_loop check_wpos new_copy
reserved_third = refl

write_copy_fails_example :
    ((3 < 3) × (write_copy 4 three_buffers (5 ∷ 6 ∷ 7 ∷ []) ≡ none))
    ⊎ ((◌≡◌ {A = ℕ} 3 3)
        × (s' : BufferStream) × (write_copy 4 three_buffers (5 ∷ 6 ∷ 7 ∷ []) ≡ some s')
        × IsBroken 4 s')
unfolding room
write_copy_fails_example =
    write_copy_fails 4 three_buffers (record { pos = 1; capacity = 4; bytes = 3 ∷ 7 ∷ 8 ∷ 9 ∷ [] })
      third_buffer [] (5 ∷ 6 ∷ 7 ∷ []) three_buffers-IsStream (omega arith)

write_copy_correct_example :
    (s' : BufferStream) × (write_copy 4 two_buffers (4 ∷ 5 ∷ 6 ∷ 7 ∷ []) ≡ some s')
    × IsStream s'
    × (bytes_of s' ≡ bytes_of two_buffers ++ (4 ∷ 5 ∷ 6 ∷ 7 ∷ []))
write_copy_correct_example =
    write_copy_correct 4 two_buffers (4 ∷ 5 ∷ 6 ∷ 7 ∷ []) (omega arith) two_buffers-IsStream
      (inl refl)

write_copy-read_data_example :
    (s' : BufferStream) × ((write_copy 4 two_buffers (4 ∷ 5 ∷ 6 ∷ 7 ∷ []) >>= λ s1.
    skip_data s1 3 >>= λ s2. read_data s2 4)
      ≡ some (4 ∷ 5 ∷ 6 ∷ 7 ∷ [], s'))
    × IsStream s'
    × (bytes_of s' ≡ [])
write_copy-read_data_example =
    write_copy-read_data 4 two_buffers (4 ∷ 5 ∷ 6 ∷ 7 ∷ []) (omega arith) two_buffers-IsStream
      (inl refl)

read_data_correct_example :
    (s' : BufferStream) × (read_data two_buffers 2 ≡ some (take 2 (bytes_of two_buffers), s'))
    × IsStream s'
    × (bytes_of s' ≡ drop 2 (bytes_of two_buffers))
read_data_correct_example = read_data_correct two_buffers 2 two_buffers-IsStream (omega arith)

skip_data-read_data_example :
    skip_data two_buffers 2 ≡ (read_data two_buffers 2 >>= λ (bytes, s'). some s')
skip_data-read_data_example = skip_data-read_data two_buffers 2 two_buffers-IsStream

ensure_write_size_correct_example :
    (s' : BufferStream) × (ensure_write_size 4 two_buffers 9 ≡ some s')
    × IsStream s'
    × (bytes_of s' ≡ bytes_of two_buffers)
    × (9 ≤ s'.wsize)
ensure_write_size_correct_example =
    ensure_write_size_correct 4 two_buffers 9 (omega arith) two_buffers-IsStream

propagate_write_pos_correct_example :
    (s' : BufferStream) × (propagate_write_pos two_buffers 2 ≡ some s')
    × IsStream s'
    × (bytes_of s' ≡ bytes_of two_buffers ++ take 2 (spares two_buffers.back))
propagate_write_pos_correct_example =
    propagate_write_pos_correct two_buffers 2 two_buffers-IsStream (omega arith) (omega arith)

pop_data_correct_example :
    (popped : List Buffer) × (s' : BufferStream) × (pop_data two_buffers ≡ some (popped, s'))
    × IsStream s'
    × (contents popped ≡ bytes_of two_buffers)
    × (bytes_of s' ≡ [])
pop_data_correct_example = pop_data_correct two_buffers two_buffers-IsStream

abbrev referred : List Buffer
referred =
    record { pos = 2; capacity = 3; bytes = 4 ∷ 5 ∷ 0 ∷ [] }
    ∷ record { pos = 1; capacity = 2; bytes = 6 ∷ 0 ∷ [] }
    ∷ []

write_ref_correct_example :
    (s' : BufferStream) × (write_ref two_buffers referred ≡ some s')
    × IsStream s'
    × (bytes_of s' ≡ bytes_of two_buffers ++ contents referred)
write_ref_correct_example =
    write_ref_correct two_buffers referred two_buffers-IsStream
      ((omega arith, refl), omega arith, ((omega arith, refl), omega arith, tt))
