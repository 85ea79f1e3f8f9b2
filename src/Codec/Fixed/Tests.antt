-- ===== src/Codec/Fixed/Tests.antt =====
-- Runs of the codec for values of fixed size of src/mcpr/codec.c.
use stronk.Base.{◌+◌, ◌^◌, ◌≡◌, ◌↔◌, refl, arith, [], ◌∷◌, ◌++◌, ok, some, true}
use stronk.Codec.Endian.{bytes_of, htons, htonll, word_of, read_bytes, be_bytes}
use stronk.Codec.Fixed.{encode_short, encode_ushort, encode_int, encode_long, encode_double}
use stronk.Codec.Fixed.{
  decode_bool, decode_short, decode_ushort, decode_int, decode_long, decode_double,
}
use stronk.Codec.Fixed.Laws.{decode-encode_ints, encode_network_order, decode_double-encode_double}

encode_258 : encode_short 258 ≡ 1 ∷ 2 ∷ []
unfolding encode_short bytes_of htons
encode_258 = refl

decode_true : decode_bool (1 ∷ []) ≡ ok (some true)
unfolding decode_bool word_of read_bytes
decode_true = refl

decode-encode_ints_example :
    (decode_short (encode_short 258 ++ []) ≡ ok 258)
    × (decode_ushort (encode_ushort 258 ++ []) ≡ ok 258)
    × (decode_int (encode_int (2 ^ 31) ++ []) ≡ ok (2 ^ 31))
    × (decode_long (encode_long (2 ^ 63 + 1) ++ []) ≡ ok (2 ^ 63 + 1))
decode-encode_ints_example =
    decode-encode_ints 258 (2 ^ 31) (2 ^ 63 + 1) [] (omega arith) (omega arith) (omega arith)

encode_network_order_example :
    (encode_short 258 ≡ be_bytes 2 258)
    × (encode_ushort 258 ≡ be_bytes 2 258)
    × (encode_int 7 ≡ be_bytes 4 7)
    × (encode_long 8 ≡ be_bytes 8 8)
    × (encode_double 9 ≡ be_bytes 8 9)
encode_network_order_example = encode_network_order 258 7 8 9

decode_double-encode_double_example :
    (decode_double (encode_double 1 ++ []) ≡ ok (htonll 1))
    × ((decode_double (encode_double 1 ++ []) ≡ ok 1) ↔ (htonll 1 ≡ 1))
decode_double-encode_double_example = decode_double-encode_double 1 []
