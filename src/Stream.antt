-- ===== src/Stream.antt =====
-- Buffered reading from a file descriptor: struct ninio_buffer and ninio_buffer_read of
-- src/ninio/ninio.h, and the functions bstream_fd_* of src/ninio/bstream.c.
pub mod Laws
mod Tests
use stronk.Base.{
  ℕ, ◌+◌, ◌-◌, ◌%◌, ◌^◌, Bool, true, false, List, [], ◌∷◌, ◌++◌, length, take, drop, replicate,
}
use stronk.Base.{
  Option, none, some, ltb, leb, ◌==◌, if◌then◌else◌, Outcome, ok, err, fault, aborted,
}

-- `content` is the memory that is allocated, of `max_size` bytes, and none of it while the
-- pointer is NULL.
pub record Buffer : Type 0 where
  pub content : Option (List ℕ)
  pub max_size : ℕ
  pub size : ℕ

abbrev pub memory_of : Option (List ℕ) → List ℕ
memory_of none = []
memory_of (some bytes) = bytes

abbrev pub memory : Buffer → List ℕ
memory buf = memory_of buf.content

-- The bytes that the buffer counts as received and not yet read.
abbrev pub valid : Buffer → List ℕ
valid buf = take buf.size (memory buf)

-- `memmove` to the front: what lay from `bytes` on, up to `size`.
abbrev pub move_front : List ℕ → ℕ → ℕ → List ℕ
move_front content bytes size = drop bytes (take size content) ++ drop (size - bytes) content

-- The copy and the move. `size` changes only if nothing is left.
unfoldable pub copy_out : List ℕ → ℕ → ℕ → ℕ → List ℕ × Buffer
copy_out content max_size size bytes =
    if ltb 0 (size - bytes)
    then (
      take bytes content,
      record { content = some (move_front content bytes size); max_size = max_size; size = size },
    )
    else (take bytes content, record { content = some content; max_size = max_size; size = 0 })

-- `assert(in->content != NULL)`
unfoldable pub read_content : Option (List ℕ) → ℕ → ℕ → ℕ → Outcome (List ℕ × Buffer)
unfolding copy_out
read_content none max_size size bytes = fault aborted
read_content (some content) max_size size bytes = ok (copy_out content max_size size bytes)

-- `assert(in->size >= bytes)`
unfoldable pub ninio_buffer_read : Buffer → ℕ → Outcome (List ℕ × Buffer)
unfolding read_content
ninio_buffer_read buf bytes =
    if ltb buf.size bytes
    then fault aborted
    else read_content buf.content buf.max_size buf.size bytes

-- What `read` on the descriptor does: it gives bytes (no more than asked for; none at the end of
-- the file), would block, or fails.
pub data Reply : Type 0 where
  got : List ℕ → Reply
  would_block failed : Reply

-- `realloc` to `n` bytes; the bytes it adds are indeterminate, and 0 here.
abbrev pub grown : Buffer → ℕ → Buffer
grown buf n =
    if ltb buf.max_size n
    then record {
      content = some (memory buf ++ replicate (n - buf.max_size) 0);
      max_size = n;
      size = buf.size;
    }
    else buf

-- The bytes of `read` are stored behind the first `size`.
abbrev pub stored : Buffer → List ℕ → Buffer
stored buf bytes = record {
  content =
      some (take buf.size (memory buf) ++ (bytes ++ drop (buf.size + length bytes) (memory buf)));
  max_size = buf.max_size;
  size = buf.size + length bytes;
}

-- The reply of the descriptor is that to the one `read`. The Boolean is the return value.
unfoldable pub attempt_fill_up_buffer : Buffer → Reply → ℕ → Bool × Buffer
attempt_fill_up_buffer buf reply size =
    if ltb buf.size size
    then elim reply [
      | got bytes ↦ (true, stored (grown buf size) (take (size - buf.size) bytes))
      | would_block ↦ (true, grown buf size)
      | failed ↦ (false, grown buf size)
    ]
    else (true, buf)

-- The bytes are handed to the caller.
abbrev pub delivered : Outcome (List ℕ × Buffer) → Outcome (Option (List ℕ) × Buffer)
delivered (ok (out, buf)) = ok (some out, buf)
delivered (err e) = err e
delivered (fault x) = fault x

-- `none` is the return value false.
unfoldable pub bstream_fd_read : Buffer → Reply → ℕ → Outcome (Option (List ℕ) × Buffer)
unfolding attempt_fill_up_buffer ninio_buffer_read
bstream_fd_read buf reply bytes =
    let (filled, buf) = attempt_fill_up_buffer buf reply bytes in
    if leb bytes buf.size then delivered (ninio_buffer_read buf bytes) else ok (none, buf)

-- `none` is the return value -1.
unfoldable pub bstream_fd_read_max : Buffer → Reply → ℕ → Outcome (Option (List ℕ) × Buffer)
unfolding attempt_fill_up_buffer ninio_buffer_read
bstream_fd_read_max buf reply bytes =
    let (filled, buf) = attempt_fill_up_buffer buf reply bytes in
    if filled
    then if leb bytes buf.size
      then delivered (ninio_buffer_read buf bytes)
      else delivered (ninio_buffer_read buf buf.size)
    else ok (none, buf)

unfoldable pub bstream_fd_peek : Buffer → Reply → ℕ → Option (List ℕ) × Buffer
unfolding attempt_fill_up_buffer
bstream_fd_peek buf reply bytes =
    let (filled, buf) = attempt_fill_up_buffer buf reply bytes in
    (if leb bytes buf.size then some (take bytes (memory buf)) else none, buf)

unfoldable pub bstream_fd_peek_max : Buffer → Reply → ℕ → List ℕ × Buffer
unfolding attempt_fill_up_buffer
bstream_fd_peek_max buf reply bytes =
    let (filled, buf) = attempt_fill_up_buffer buf reply bytes in
    (if leb bytes buf.size then take bytes (memory buf) else take buf.size (memory buf), buf)

unfoldable pub bstream_fd_is_available : Buffer → Reply → ℕ → Bool × Buffer
unfolding attempt_fill_up_buffer
bstream_fd_is_available buf reply amount =
    let (filled, buf) = attempt_fill_up_buffer buf reply amount in (leb amount buf.size, buf)

-- The buffer of `bstream_from_fd`.
abbrev pub empty_buffer : Buffer
empty_buffer = record { content = none; max_size = 0; size = 0 }

-- `decref` frees the stream if the count is 0 after it: `none`. An unsigned count of 0 wraps.
unfoldable pub bstream_fd_incref : ℕ → ℕ
bstream_fd_incref reference_count = (reference_count + 1) % 2 ^ 32

unfoldable pub bstream_fd_decref : ℕ → Option ℕ
bstream_fd_decref reference_count =
    let left = (reference_count + (2 ^ 32 - 1)) % 2 ^ 32 in if left == 0 then none else some left
