-- ===== src/Codec/Fixed.antt =====
-- Values of fixed size: mcpr_encode_bool to mcpr_encode_double, angle and uuid, and their
-- decoders, in src/mcpr/codec.c. An encoder gives the bytes that it stores at `out`; a decoder
-- is given what may be read from `in`. Floats are their bit patterns.
pub mod Laws
mod Tests
use stronk.Base.{ℕ, ◌+◌, ◌*◌, ◌/◌, ◌%◌, ◌^◌, bit_and, bit_or, Bool, true, false, Option, none, some}
use stronk.Base.{List, [], ◌∷◌, ltb, ◌==◌, ◌||◌, if◌then◌else◌, u32}
use stronk.Base.{Outcome, ok, err, fault, ◌>>=◌, bad_shift}
use stronk.Codec.Endian.{bytes_of, word_of, read_bytes, htons, htonl, htonll}

unfoldable pub encode_bool : Bool → List ℕ
encode_bool b = bytes_of 1 (if b then 0x01 else 0x00)

-- mcpr_encode_byte and mcpr_encode_ubyte: one byte as it is.
unfoldable pub encode_byte : ℕ → List ℕ
encode_byte byte = bytes_of 1 byte

unfoldable pub encode_ubyte : ℕ → List ℕ
encode_ubyte byte = bytes_of 1 byte

unfoldable pub encode_short : ℕ → List ℕ
encode_short i = bytes_of 2 (htons i)

unfoldable pub encode_ushort : ℕ → List ℕ
encode_ushort i = bytes_of 2 (htons i)

unfoldable pub encode_int : ℕ → List ℕ
encode_int i = bytes_of 4 (htonl i)

unfoldable pub encode_long : ℕ → List ℕ
encode_long i = bytes_of 8 (htonll i)

-- `x >> count` on a uint32_t.
shr_u32 : ℕ → ℕ → Outcome ℕ
shr_u32 x count = if ltb count 32 then ok (x / 2 ^ count) else fault bad_shift

-- `hton64(netfloat)` on a uint32_t, which the macro shifts by 32.
unfoldable pub encode_float : ℕ → Outcome (List ℕ)
unfolding shr_u32
encode_float f = do
  high ← shr_u32 f 32
  let netfloat = bit_or (htonl (bit_and f 0xFFFFFFFF) * 2 ^ 32) (htonl high)
  ok (bytes_of 4 (u32 netfloat))

unfoldable pub encode_double : ℕ → List ℕ
encode_double d = bytes_of 8 (htonll d)

unfoldable pub encode_angle : ℕ → List ℕ
unfolding encode_ubyte
encode_angle angle = encode_ubyte angle

-- The sixteen bytes of the identifier.
unfoldable pub encode_uuid : List ℕ → List ℕ
encode_uuid bytes = bytes

-- `none`: `*out` is left as it was.
unfoldable pub decode_bool : List ℕ → Outcome (Option Bool)
decode_bool mem = do
  b ← read_bytes 1 mem
  ok (if word_of b == 0x01 then some true else if word_of b == 0x00 then some false else none)

unfoldable pub decode_byte : List ℕ → Outcome ℕ
decode_byte mem = do b ← read_bytes 1 mem; ok (word_of b)

unfoldable pub decode_ubyte : List ℕ → Outcome ℕ
decode_ubyte mem = do b ← read_bytes 1 mem; ok (word_of b)

unfoldable pub decode_short : List ℕ → Outcome ℕ
decode_short mem = do b ← read_bytes 2 mem; ok (htons (word_of b))

unfoldable pub decode_ushort : List ℕ → Outcome ℕ
decode_ushort mem = do b ← read_bytes 2 mem; ok (htons (word_of b))

unfoldable pub decode_int : List ℕ → Outcome ℕ
decode_int mem = do b ← read_bytes 4 mem; ok (htonl (word_of b))

unfoldable pub decode_long : List ℕ → Outcome ℕ
decode_long mem = do b ← read_bytes 8 mem; ok (htonll (word_of b))

-- No change of byte order.
unfoldable pub decode_float : List ℕ → Outcome ℕ
decode_float mem = do b ← read_bytes 4 mem; ok (word_of b)

unfoldable pub decode_double : List ℕ → Outcome ℕ
decode_double mem = do b ← read_bytes 8 mem; ok (word_of b)

unfoldable pub decode_angle : List ℕ → Outcome ℕ
unfolding decode_ubyte
decode_angle mem = decode_ubyte mem

unfoldable pub decode_uuid : List ℕ → Outcome (List ℕ)
decode_uuid mem = read_bytes 16 mem
