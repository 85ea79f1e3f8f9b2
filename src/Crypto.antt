-- ===== src/Crypto.antt =====
-- src/mcpr/crypto.c and mcpr_as_chat of src/mcpr/mcpr.c.
pub mod Laws
mod Tests
use stronk.Base.{ℕ, zero, suc, ◌+◌, ◌-◌, ◌*◌, ◌/◌, ◌%◌, ◌^◌, Bool, true, false, ◌==◌, ltb, leb}
use stronk.Base.{if◌then◌else◌, List, [], ◌∷◌, ◌++◌, length, get_or, Option, none, u8}
use stronk.Base.{Outcome, ok, fault, use_after_free}
use stronk.Packet.Json.{codes}

-- `%02x` on a byte.
abbrev hex_digit : ℕ → ℕ
hex_digit d = if ltb d 10 then b'0' + d else b'a' + (d - 10)

unfoldable pub hex_byte : ℕ → List ℕ
hex_byte x = hex_digit (x / 16) ∷ hex_digit (x % 16) ∷ []

unfoldable pub hex_string : List ℕ → List ℕ
unfolding hex_byte
hex_string [] = []
hex_string (x ∷ xs) = hex_byte x ++ hex_string xs

-- `bytes[19] & 0x80`
unfoldable pub is_negative : List ℕ → Bool
is_negative hash = leb 128 (get_or hash 19 0)

-- The text before its NUL. For a negative hash the negated bytes are in an array of the block of the
-- first branch, and are printed behind that block, where the array is no more. The loop that trims
-- zeros moves a pointer that is not used again.
unfoldable pub mcpr_crypto_stringify_sha1 : List ℕ → Outcome (List ℕ)
unfolding is_negative hex_string
mcpr_crypto_stringify_sha1 hash =
    if is_negative hash then fault use_after_free else ok (hex_string hash)

-- mcpr_crypto_decrypt, by what EVP_DecryptUpdate writes or its failure.
unfoldable pub mcpr_crypto_decrypt : (List ℕ → Option (List ℕ)) → List ℕ → Option (List ℕ)
mcpr_crypto_decrypt decrypt bytes = if ltb (2 ^ 31 - 1) (length bytes) then none else decrypt bytes

-- The formatted message is put between the quotes as it is.
unfoldable pub mcpr_as_chat : List ℕ → List ℕ
mcpr_as_chat message = codes "{\"text\":\"" ++ (message ++ codes "\"}")

-- The size of the buffer allocated for that text and its NUL.
unfoldable pub chat_buffer_size : List ℕ → ℕ
chat_buffer_size message = 12 + length message
