-- ===== src/Codec/Position.antt =====
-- Block positions: mcpr_encode_position and mcpr_decode_position of src/mcpr/codec.c, and struct
-- mcpr_position of src/mcpr/mcpr.h. A coordinate is the bit pattern of a 64-bit integer.
pub mod Laws
mod Tests
use stronk.Base.{ℕ, ◌+◌, ◌-◌, ◌*◌, ◌/◌, ◌%◌, ◌^◌, List, ltb, if◌then◌else◌, u64, bit_and, bit_or}
use stronk.Base.{Outcome, ok, ◌>>=◌}
use stronk.Codec.Endian.{read_bytes, word_of, htonll}
use stronk.Codec.Fixed.{encode_long}

pub record Position : Type 0 where
  pub x : ℕ
  pub y : ℕ
  pub z : ℕ

-- `w >> k` on an int64_t copies the sign bit.
abbrev pub sar64 : ℕ → ℕ → ℕ
sar64 w k = if ltb w (2 ^ 63) then w / 2 ^ k else w / 2 ^ k + (2 ^ 64 - 2 ^ (64 - k))

abbrev pub shl64 : ℕ → ℕ → ℕ
shl64 w k = u64 (w * 2 ^ k)

unfoldable pub encode_position : Position → List ℕ
encode_position p =
    let pos =
      bit_or (bit_or (shl64 (bit_and p.x 0x3FFFFFF) 38) (shl64 (bit_and p.y 0xFFF) 26))
        (bit_and p.z 0x3FFFFFF) in
    encode_long pos

-- The shifts and the mask of the decoder.
unfoldable pub unpack : ℕ → Position
unpack iin = record {
  x = sar64 iin 38;
  y = bit_and (sar64 iin 26) 0xFFF;
  z = sar64 (shl64 iin 38) 38;
}

unfoldable pub decode_position : List ℕ → Outcome Position
unfolding unpack
decode_position mem = do bytes ← read_bytes 8 mem; ok (unpack (htonll (word_of bytes)))
