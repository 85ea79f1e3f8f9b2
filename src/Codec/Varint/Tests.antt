-- ===== src/Codec/Varint/Tests.antt =====
-- Runs of the variable-length codec of src/mcpr/codec.c, and its theorems at concrete inputs.
use stronk.Base.{
  lt_wf, dec_lt, ℕ, ◌+◌, ◌-◌, ◌≤◌, ◌<◌, ◌^◌, ◌≡◌, ◌≢◌, refl, arith, List, [], ◌∷◌, ◌++◌, length, ok,
  err, fault,
}
use stronk.Base.{varint_too_long, over_read, bad_shift}
use stronk.Codec.Varint.{
  encode_varint, encode_varlong, varint_bounds, decode_varint, decode_varlong,
}
use stronk.Codec.Varint.{groups_loop, bounds_loop, varnum_loop, shl_int}
use stronk.Codec.Varint.Encode.{varint_bounds-length, length-encode_varint}
use stronk.Codec.Varint.RoundTrip.{decode_varint-encode_varint}
use stronk.Codec.Varint.Wide.{decode_varlong-encode_varlong, decode_varlong_faults}
use stronk.Codec.Varint.Reads.{decode_varint_takes, decode_varint_safe, decode_varint-ne-too_long}

encode_300 : encode_varint 300 ≡ 0xAC ∷ 0x02 ∷ []
unfolding encode_varint groups_loop lt_wf dec_lt
encode_300 = refl

abbrev two_groups : List ℕ
two_groups = 0xAC ∷ 0x02 ∷ 0x07 ∷ []

decode_300 : decode_varint two_groups 3 ≡ ok (300, 2)
unfolding decode_varint varnum_loop shl_int
decode_300 = refl

encode_minus_1 : length (encode_varlong (2 ^ 64 - 1)) ≡ 10
unfolding encode_varlong groups_loop lt_wf dec_lt
encode_minus_1 = refl

bounds_minus_1 : varint_bounds (2 ^ 32 - 1) ≡ 5
unfolding varint_bounds bounds_loop lt_wf dec_lt
bounds_minus_1 = refl

decode_varint-encode_varint_example :
    decode_varint (encode_varint 300 ++ (7 ∷ [])) 5 ≡ ok (300, length (encode_varint 300))
decode_varint-encode_varint_example =
    decode_varint-encode_varint 300 (7 ∷ []) 5 (omega arith) (length-encode_varint 300).1

varint_bounds-length_example : varint_bounds 300 ≡ length (encode_varint 300)
varint_bounds-length_example = varint_bounds-length 300 (omega arith)

wide_size : length (encode_varlong (2 ^ 32 + 5)) ≡ 5
unfolding encode_varlong groups_loop lt_wf dec_lt
wide_size = refl

decode_varlong-encode_varlong_example :
    decode_varlong (encode_varlong (2 ^ 32 + 5) ++ []) 10
    ≡ ok (5, length (encode_varlong (2 ^ 32 + 5)))
decode_varlong-encode_varlong_example =
    decode_varlong-encode_varlong (2 ^ 32 + 5) [] 10 (omega arith) (omega (arith, wide_size))

decode_varlong_faults_example :
    decode_varlong (encode_varlong (2 ^ 64 - 1) ++ []) 10 ≡ fault bad_shift
decode_varlong_faults_example =
    decode_varlong_faults (2 ^ 64 - 1) [] 10 (omega arith) (omega arith) (omega arith)

decode_varint_takes_example : (300 < 2 ^ 32) × (1 ≤ 2) × (2 ≤ 5) × (2 ≤ 3) × (2 ≤ length two_groups)
decode_varint_takes_example = decode_varint_takes two_groups 3 300 2 decode_300

decode_varint_safe_example : decode_varint (0xAC ∷ 0xAC ∷ []) 1 ≢ fault over_read
decode_varint_safe_example = decode_varint_safe (0xAC ∷ 0xAC ∷ []) 1 (omega arith)

decode_varint-ne-too_long_example :
    decode_varint (0x80 ∷ 0x80 ∷ 0x80 ∷ 0x80 ∷ 0x80 ∷ 0x80 ∷ []) 9 ≢ err varint_too_long
decode_varint-ne-too_long_example =
    decode_varint-ne-too_long (0x80 ∷ 0x80 ∷ 0x80 ∷ 0x80 ∷ 0x80 ∷ 0x80 ∷ []) 9
