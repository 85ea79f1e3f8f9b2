-- ===== src/Codec/Text.antt =====
-- Strings and chat: mcpr_encode_string, mcpr_encode_chat, mcpr_decode_string and
-- mcpr_decode_chat of src/mcpr/codec.c. A string is the list of its bytes before the NUL.
pub mod Laws
mod Tests
use stronk.Base.{ℕ, ◌+◌, ◌-◌, ◌*◌, ◌^◌, ◌<◌, List, [], ◌∷◌, ◌++◌, length, drop, ltb, leb, not, ◌||◌}
use stronk.Base.{Outcome, ok, err, fault, ◌>>=◌, ◌>>◌, guard, arithmetic, bad_string_length}
use stronk.Base.{if◌then◌else◌}
use stronk.Codec.Endian.{read_bytes}
use stronk.Codec.Varint.{encode_varint, decode_varint}

abbrev int32_max : ℕ
int32_max = 2 ^ 31 - 1

abbrev size_max : ℕ
size_max = 2 ^ 64 - 1

-- MCPR_STR_MAX
abbrev str_max : ℕ
str_max = 2147483652

unfoldable pub encode_string : List ℕ → Outcome (List ℕ)
encode_string str =
    if ltb int32_max (length str) then err arithmetic else ok (encode_varint (length str) ++ str)

unfoldable pub encode_chat : List ℕ → Outcome (List ℕ)
unfolding encode_string
encode_chat chat = encode_string chat

-- The new string, and the number of bytes read. `len < 0` is the sign bit of the pattern.
unfoldable pub decode_string : List ℕ → ℕ → Outcome (List ℕ × ℕ)
decode_string mem maxlen = do
  (len, bytes_read) ← decode_varint mem maxlen
  guard (ltb len (2 ^ 31)) bad_string_length
  guard (not (ltb str_max len || leb size_max len)) arithmetic
  body ← read_bytes len (drop bytes_read mem)
  guard (leb (bytes_read + len) size_max) arithmetic
  ok (body, bytes_read + len)

unfoldable pub decode_chat : List ℕ → ℕ → Outcome (List ℕ × ℕ)
unfolding decode_string
decode_chat mem maxsize = decode_string mem maxsize
