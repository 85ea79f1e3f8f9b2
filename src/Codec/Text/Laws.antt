-- ===== src/Codec/Text/Laws.antt =====
-- Strings read back, and how far the decoder reads.
use stronk.Base.{ℕ, ◌+◌, ◌^◌, ◌≤◌, ◌<◌, ◌≡◌, refl, arith}
use stronk.Base.{List, ◌++◌, length, length-append, drop, length-drop, append_assoc}
use stronk.Base.{drop-length_append, ok, err, fault, over_read, arithmetic, >>=-eq-ok}
use stronk.Base.{length-take, take, ap, ◌∙◌}
use stronk.Codec.Endian.{read_bytes, read_bytes-front}
use stronk.Codec.Varint.{encode_varint, decode_varint}
use stronk.Codec.Varint.RoundTrip.{decode_varint-encode_varint}
use stronk.Codec.Varint.Reads.{decode_varint_takes}
use stronk.Codec.Text.{encode_string, decode_string}

-- `mcpr_encode_string` writes the length and the bytes, and refuses what an int32_t cannot count.
pub encode_string_lem :
    (str : List ℕ)
    → (length str < 2 ^ 31 → encode_string str ≡ ok (encode_varint (length str) ++ str))
      × (2 ^ 31 ≤ length str → encode_string str ≡ err arithmetic)
unfolding encode_string
encode_string_lem str = ground arith

-- A string comes back from its encoding: the decoder returns its bytes and the encoding's size,
-- whatever follows. `maxlen` need only cover the length prefix, not the bytes of the string.
pub decode_string-encode_string :
    (str mem : List ℕ) (maxlen : ℕ)
    → length str < 2 ^ 31
    → length (encode_varint (length str)) ≤ maxlen
    → decode_string ((encode_varint (length str) ++ str) ++ mem) maxlen
      ≡ ok (str, length (encode_varint (length str) ++ str))
unfolding decode_string
decode_string-encode_string str mem maxlen h room =
    let n = length str in
    let prefix = encode_varint n in
    let len_ok : decode_varint (prefix ++ (str ++ mem)) maxlen ≡ ok (n, length prefix) =
      decode_varint-encode_varint n (str ++ mem) maxlen (omega arith) room in
    ground (
      arith,
      append_assoc prefix str mem,
      len_ok,
      drop-length_append prefix (str ++ mem),
      read_bytes-front str mem n refl,
      length-append prefix str,
      decode_varint_takes (prefix ++ (str ++ mem)) maxlen n (length prefix) len_ok,
    )

-- The length in the prefix is not held against `maxlen`: if it leads past what may be read, the
-- decoder reads there.
pub decode_string_over_reads :
    (mem : List ℕ) (maxlen len n : ℕ)
    → decode_varint mem maxlen ≡ ok (len, n)
    → len < 2 ^ 31
    → length mem < n + len
    → decode_string mem maxlen ≡ fault over_read
unfolding decode_string read_bytes
decode_string_over_reads mem maxlen len n e h far =
    ground (arith, e, length-drop n mem, decode_varint_takes mem maxlen len n e)

-- Where a string is decoded, its length stands in front as a varint, which was read within
-- `maxlen`; the string is that many of the bytes behind it, which were all readable; and the size
-- that is returned is that of the varint and the string together.
pub decode_string_takes :
    (mem : List ℕ) (maxlen n : ℕ) (str : List ℕ)
    → decode_string mem maxlen ≡ ok (str, n)
    → (k : ℕ) × (decode_varint mem maxlen ≡ ok (length str, k))
      × (n ≡ k + length str)
      × (str ≡ take (length str) (drop k mem))
      × (n ≤ length mem)
      × (length str < 2 ^ 31)
unfolding decode_string read_bytes
decode_string_takes mem maxlen n str e =
    let ((len, k), read, rest) = >>=-eq-ok (decode_varint mem maxlen) _ e in
    let room = length-drop k mem in
    let prefix = decode_varint_takes mem maxlen len k read in
    let body : str ≡ take len (drop k mem) = ground (arith, rest) in
    let (total, fits, small) : (n ≡ k + len) × (len ≤ length (drop k mem)) × (len < 2 ^ 31) =
      ground (arith, rest) in
    let same : length str ≡ len =
      ap length body ∙ length-take len (drop k mem) ∙ omega (arith, fits) in
    (
      k,
      rw same read,
      rw same total,
      rw same body,
      omega (arith, total, fits, room, prefix),
      rw same small,
    )
