-- ===== src/Stream/Tests.antt =====
-- The stream of src/ninio/bstream.c on concrete bytes.
use stronk.Base.{◌≡◌, refl, arith, [], ◌∷◌, ◌++◌, length, drop, take, some, none, ok, ◌==◌}
use stronk.Base.{if◌then◌else◌}
use stronk.Stream.{Buffer, valid, got, ninio_buffer_read, read_content, copy_out, bstream_fd_read}
use stronk.Stream.{empty_buffer}
use stronk.Stream.Laws.{IsValid, ninio_buffer_read_partial, bstream_fd_read_fifo}

abbrev three_bytes : Buffer
three_bytes = record { content = some (1 ∷ 2 ∷ 3 ∷ []); max_size = 3; size = 3 }

abbrev after_one : Buffer
after_one = record { content = some (2 ∷ 3 ∷ 3 ∷ []); max_size = 3; size = 3 }

read_one : ninio_buffer_read three_bytes 1 ≡ ok (1 ∷ [], after_one)
unfolding ninio_buffer_read read_content copy_out
read_one = refl

ninio_buffer_read_partial_example :
    (1 ∷ [] ≡ take 1 (valid three_bytes))
    × (valid after_one ≡ drop 1 (valid three_bytes) ++ drop 2 (valid three_bytes))
ninio_buffer_read_partial_example =
    ninio_buffer_read_partial three_bytes 1 (1 ∷ []) after_one (refl, omega arith) (omega arith)
      read_one

bstream_fd_read_fifo_example :
    let all = valid empty_buffer ++ (1 ∷ 2 ∷ []) in
    (buf' : Buffer) × (bstream_fd_read empty_buffer (got (1 ∷ 2 ∷ [])) 2
      ≡ ok ((if length all == 2 then some all else none), buf'))
    × IsValid buf'
    × (valid buf' ≡ (if length all == 2 then [] else all))
bstream_fd_read_fifo_example =
    bstream_fd_read_fifo empty_buffer (1 ∷ 2 ∷ []) 2 (refl, omega arith) (omega arith) (omega arith)
      (omega arith)
