-- ===== src/Packet/Encode/Bounds/Sizes.antt =====
-- The sizes of the encodings that the packets are made of.
use stronk.Base.{ℕ, ◌≡◌, Bool, length}
use stronk.Codec.Endian.{length-bytes_of}
use stronk.Codec.Fixed.{encode_bool, encode_byte, encode_ubyte, encode_int, encode_long}
use stronk.Codec.Fixed.{encode_double}
use stronk.Codec.Position.{Position, encode_position}

pub length-encode_bool : (b : Bool) → length (encode_bool b) ≡ 1
unfolding encode_bool
length-encode_bool b = length-bytes_of 1 _

pub length-encode_byte : (b : ℕ) → length (encode_byte b) ≡ 1
unfolding encode_byte
length-encode_byte b = length-bytes_of 1 b

pub length-encode_ubyte : (b : ℕ) → length (encode_ubyte b) ≡ 1
unfolding encode_ubyte
length-encode_ubyte b = length-bytes_of 1 b

pub length-encode_int : (i : ℕ) → length (encode_int i) ≡ 4
unfolding encode_int
length-encode_int i = length-bytes_of 4 _

pub length-encode_long : (l : ℕ) → length (encode_long l) ≡ 8
unfolding encode_long
length-encode_long l = length-bytes_of 8 _

pub length-encode_double : (d : ℕ) → length (encode_double d) ≡ 8
unfolding encode_double
length-encode_double d = length-bytes_of 8 _

pub length-encode_position : (p : Position) → length (encode_position p) ≡ 8
unfolding encode_position
length-encode_position p = length-encode_long _
