-- ===== src/Stream/Laws.antt =====
-- What a reader gets from the stream of src/ninio/bstream.c.
use stronk.Base.{ℕ, ◌+◌, ◌-◌, ◌≤◌, ◌<◌, ◌≡◌, refl, ap, ◌∙◌, sym, arith, true, false, ltb, leb}
use stronk.Base.{List, [], ◌++◌, length, take, drop, length-append, length-take, length-drop}
use stronk.Base.{Option, none, some, if◌then◌else◌, ok, ◌==◌}
use stronk.Base.{
  Bool-cases, inl, inr, take-append_le, take-length_append, length-replicate, replicate, take-long,
  take-length_add, drop-take, take-take,
}
use stronk.Stream.{
  memory_of, read_content, copy_out, Buffer, memory, valid, got, attempt_fill_up_buffer, grown,
}
use stronk.Stream.{ninio_buffer_read, bstream_fd_read, stored, move_front}

-- The memory has `max_size` bytes, and `size` of them are in use.
abbrev pub IsValid : Buffer → Type 0
IsValid buf = (length (memory buf) ≡ buf.max_size) × (buf.size ≤ buf.max_size)

kept_twice :
    (content : List ℕ) (bytes size : ℕ)
    → bytes < size
    → size ≤ length content
    → take size (move_front content bytes size)
      ≡ drop bytes (take size content) ++ drop (size - bytes) (take size content)
kept_twice content bytes size h room =
    let front = drop bytes (take size content) in
    let whole : length front + bytes ≡ size =
      omega (arith, length-drop bytes (take size content), length-take size content) in
    let sum : size - bytes + bytes ≡ size = omega arith in
    ap (λ (n : ℕ). take n (front ++ drop (size - bytes) content)) (sym whole)
    ∙ take-length_add front (drop (size - bytes) content) bytes
    ∙ ap (λ l. front ++ l) (sym (drop-take (size - bytes) bytes content))
    ∙ ap (λ (n : ℕ). front ++ drop (size - bytes) (take n content)) sum

partial_content :
    (content : Option (List ℕ)) (max_size size bytes : ℕ) (out : List ℕ) (buf' : Buffer)
    → size ≤ length (memory_of content)
    → bytes < size
    → read_content content max_size size bytes ≡ ok (out, buf')
    → (out ≡ take bytes (take size (memory_of content)))
      × (valid buf'
          ≡ drop bytes (take size (memory_of content))
            ++ drop (size - bytes) (take size (memory_of content)))
unfolding read_content copy_out
partial_content none max_size size bytes out buf' room h e = cc
partial_content (some content) max_size size bytes out buf' room h e =
    let part : ltb 0 (size - bytes) ≡ true = ground arith in
    let moved : Buffer = record {
      content = some (move_front content bytes size);
      max_size = max_size;
      size = size;
    } in
    let pair : copy_out content max_size size bytes ≡ (out, buf') = cc in
    let both : ◌≡◌ {A = List ℕ × Buffer} (take bytes content, moved) (out, buf') =
      rw part at pair in
    (
      sym (ap (λ p. p.0) both) ∙ sym (take-take bytes size content (omega arith)),
      sym (ap (λ p. valid p.1) both) ∙ kept_twice content bytes size h room,
    )

-- A read of fewer bytes than there are hands out the first of them, but it leaves `size` as it
-- is: the rest is moved to the front, and the last bytes of the buffer, as many as were read, now
-- stand there twice.
pub ninio_buffer_read_partial :
    (buf : Buffer) (bytes : ℕ) (out : List ℕ) (buf' : Buffer)
    → IsValid buf
    → bytes < buf.size
    → ninio_buffer_read buf bytes ≡ ok (out, buf')
    → (out ≡ take bytes (valid buf))
      × (valid buf' ≡ drop bytes (valid buf) ++ drop (buf.size - bytes) (valid buf))
unfolding ninio_buffer_read
ninio_buffer_read_partial buf bytes out buf' h lt e =
    let enough : ltb buf.size bytes ≡ false = ground arith in
    partial_content buf.content buf.max_size buf.size bytes out buf' (omega (arith, h.0, h.1)) lt
      (rw enough at e)

memory-grown :
    (buf : Buffer) (n : ℕ)
    → IsValid buf
    → (valid (grown buf n) ≡ valid buf)
      × (length (memory (grown buf n)) ≡ (grown buf n).max_size)
      × (n ≤ (grown buf n).max_size)
      × ((grown buf n).size ≡ buf.size)
memory-grown buf n h = elim (Bool-cases (ltb buf.max_size n)) [
  | inl more ↦
      let larger : buf.max_size < n = ground (arith, more) in
      rw more (
        take-append_le buf.size (memory buf) (replicate (n - buf.max_size) 0)
            (omega (arith, h.0, h.1)),
        omega (
          arith,
          length-append (memory buf) (replicate (n - buf.max_size) 0),
          length-replicate {A = ℕ} (n - buf.max_size) 0,
          h.0,
          larger,
        ),
        omega arith,
        refl,
      )
  | inr enough ↦ rw enough (refl, h.0, ground arith, refl)
]

stored-valid :
    (buf : Buffer) (bytes : List ℕ) (n : ℕ)
    → IsValid buf
    → buf.size + length bytes ≤ n
    → (valid (stored (grown buf n) bytes) ≡ valid buf ++ bytes)
      × IsValid (stored (grown buf n) bytes)
stored-valid buf bytes n h room =
    let (kept, whole, large, same) = memory-grown buf n h in
    let m = memory (grown buf n) in
    let front = take (grown buf n).size m in
    let front_size : length front ≡ (grown buf n).size =
      omega (arith, length-take (grown buf n).size m) in
    let rest = drop ((grown buf n).size + length bytes) m in
    (
      ap (λ (k : ℕ). take (k + length bytes) (front ++ (bytes ++ rest))) (sym front_size)
          ∙ take-length_add front (bytes ++ rest) (length bytes)
          ∙ ap (λ l. front ++ l) (take-length_append bytes rest)
          ∙ ap (λ l. l ++ bytes) kept,
      (
        omega (
          arith,
          length-append front (bytes ++ rest),
          length-append bytes rest,
          length-drop ((grown buf n).size + length bytes) m,
        ),
        omega arith,
      ),
    )

-- A read of more bytes than the buffer has: when the descriptor gives the missing ones, they are
-- handed out behind those of the buffer, in order, and the buffer is empty; when it gives fewer,
-- nothing is handed out, and the buffer has both, in order.
pub bstream_fd_read_fifo :
    (buf : Buffer) (arrived : List ℕ) (bytes : ℕ)
    → IsValid buf
    → 0 < bytes
    → buf.size < bytes
    → buf.size + length arrived ≤ bytes
    → let all = valid buf ++ arrived in
      (buf' : Buffer) × (bstream_fd_read buf (got arrived) bytes
        ≡ ok ((if length all == bytes then some all else none), buf'))
      × IsValid buf'
      × (valid buf' ≡ (if length all == bytes then [] else all))
unfolding bstream_fd_read attempt_fill_up_buffer ninio_buffer_read read_content copy_out
bstream_fd_read_fifo buf arrived bytes h pos lt room =
    let next = stored (grown buf bytes) arrived in
    let (stands, good) = stored-valid buf arrived bytes h (omega arith) in
    let asks : ltb buf.size bytes ≡ true = ground arith in
    let whole : take (bytes - buf.size) arrived ≡ arrived =
      take-long (bytes - buf.size) arrived (omega arith) in
    let size : next.size ≡ length (valid buf ++ arrived) = omega (
      arith,
      length-append (valid buf) arrived,
      length-take buf.size (memory buf),
      h.0,
      h.1,
      (memory-grown buf bytes h).3,
    ) in
    elim (Bool-cases (length (valid buf ++ arrived) == bytes)) [
      | inl full ↦
          let exact : next.size ≡ bytes = ground (arith, full, size) in
          let enough : leb bytes next.size ≡ true = ground (arith, exact) in
          let allowed : ltb next.size bytes ≡ false = ground (arith, exact) in
          let none_left : ltb 0 (next.size - bytes) ≡ false = ground (arith, exact) in
          let out : take bytes (memory next) ≡ valid buf ++ arrived =
            ap (λ (n : ℕ). take n (memory next)) (sym exact) ∙ stands in
          let emptied : Buffer = record {
            content = next.content;
            max_size = next.max_size;
            size = 0;
          } in
          rw (full, asks, whole, enough, allowed, none_left)
            (emptied, ap (λ l. ok (some l, emptied)) out, (good.0, omega arith), refl)
      | inr short ↦
          let fewer : leb bytes next.size ≡ false = ground (
            arith,
            short,
            size,
            length-append (valid buf) arrived,
            length-take buf.size (memory buf),
            h.0,
            h.1,
          ) in
          rw (short, asks, whole, fewer) (next, refl, good, stands)
    ]
