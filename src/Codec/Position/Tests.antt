-- ===== src/Codec/Position/Tests.antt =====
-- The position codec of src/mcpr/codec.c at a concrete position.
use stronk.Base.{◌-◌, ◌^◌, ◌≡◌, arith, [], ◌++◌, ok, inl, inr}
use stronk.Codec.Position.{Position, encode_position, decode_position}
use stronk.Codec.Position.Laws.{decode_position-encode_position}

-- x is 100, y is -1 and z is -7.
abbrev spot : Position
spot = record { x = 100; y = 2 ^ 64 - 1; z = 2 ^ 64 - 7 }

decode_position-encode_position_example :
    decode_position (encode_position spot ++ []) ≡ ok (record { x = 100; y = 4095; z = 2 ^ 64 - 7 })
decode_position-encode_position_example =
    decode_position-encode_position spot [] (inl (omega arith)) (inr (omega arith, omega arith))
