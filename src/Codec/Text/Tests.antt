-- ===== src/Codec/Text/Tests.antt =====
-- The string codec of src/mcpr/codec.c at concrete inputs.
use stronk.Base.{
  ℕ, ◌≤◌, ◌<◌, ◌+◌, ◌^◌, ◌≡◌, refl, arith, List, [], ◌∷◌, ◌++◌, length, length-append, ok, fault,
  over_read,
}
use stronk.Codec.Varint.{encode_varint, decode_varint}
use stronk.Codec.Varint.Encode.{length-encode_varint}
use stronk.Codec.Varint.RoundTrip.{decode_varint-encode_varint}
use stronk.Codec.Text.{encode_string, decode_string}
use stronk.Base.{take, drop}
use stronk.Codec.Text.Laws.{
  decode_string-encode_string, decode_string_over_reads, decode_string_takes,
}

abbrev steve : List ℕ
steve = b'S' ∷ b't' ∷ b'e' ∷ b'v' ∷ b'e' ∷ []

encode_steve : encode_string steve ≡ ok (encode_varint 5 ++ steve)
unfolding encode_string
encode_steve = refl

decode_string-encode_string_example :
    decode_string ((encode_varint 5 ++ steve) ++ (1 ∷ [])) 5
    ≡ ok (steve, length (encode_varint 5 ++ steve))
decode_string-encode_string_example =
    decode_string-encode_string steve (1 ∷ []) 5 (omega arith) (length-encode_varint 5).1

-- A length of 5, and two bytes behind it.
short_text :
    decode_varint (encode_varint 5 ++ (b'S' ∷ b't' ∷ [])) 5 ≡ ok (5, length (encode_varint 5))
short_text =
    decode_varint-encode_varint 5 (b'S' ∷ b't' ∷ []) 5 (omega arith) (length-encode_varint 5).1

one_byte : length (encode_varint 5 ++ (b'S' ∷ b't' ∷ [])) < length (encode_varint 5) + 5
one_byte = omega (arith, length-append (encode_varint 5) (b'S' ∷ b't' ∷ []))

decode_string_over_reads_example :
    decode_string (encode_varint 5 ++ (b'S' ∷ b't' ∷ [])) 5 ≡ fault over_read
decode_string_over_reads_example =
    decode_string_over_reads (encode_varint 5 ++ (b'S' ∷ b't' ∷ [])) 5 5 (length (encode_varint 5))
      short_text (omega arith) one_byte

decode_string_takes_example :
    let mem = (encode_varint 5 ++ steve) ++ (1 ∷ []) in
    (k : ℕ) × (decode_varint mem 5 ≡ ok (5, k))
    × (length (encode_varint 5 ++ steve) ≡ k + 5)
    × (steve ≡ take 5 (drop k mem))
    × (length (encode_varint 5 ++ steve) ≤ length mem)
    × (5 < 2 ^ 31)
decode_string_takes_example =
    decode_string_takes ((encode_varint 5 ++ steve) ++ (1 ∷ [])) 5
      (length (encode_varint 5 ++ steve)) steve decode_string-encode_string_example
