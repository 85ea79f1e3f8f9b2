-- ===== src/Crypto/Laws.antt =====
-- The number that mcpr_crypto_stringify_sha1 of src/mcpr/crypto.c prints.
use stronk.Base.{ℕ, zero, suc, ◌+◌, ◌*◌, ◌/◌, ◌%◌, ◌<◌, ◌≡◌, refl, arith}
use stronk.Base.{List, [], ◌∷◌, ◌++◌, length, All, IsByte, if◌then◌else◌, get_or, length-append}
use stronk.Base.{append_assoc, append-nil, ap, ◌∙◌, sym}
use stronk.Crypto.{hex_digit, hex_byte, hex_string, is_negative}
use stronk.Base.{ltb, ok, fault, use_after_free}
use stronk.Crypto.{mcpr_crypto_stringify_sha1, mcpr_as_chat, chat_buffer_size}

-- The number that a byte string stands for, its first byte the highest.
abbrev pub big_endian : ℕ → List ℕ → ℕ
big_endian acc [] = acc
big_endian acc (x ∷ xs) = big_endian (acc * 256 + x) xs

-- The lowest `k` hexadecimal digits of a number, the highest first.
unfoldable pub hex_digits : ℕ → ℕ → List ℕ
hex_digits zero n = []
hex_digits (suc k) n = hex_digits k (n / 16) ++ (hex_digit (n % 16) ∷ [])

two_digits :
    (k acc x : ℕ) → x < 256 → hex_digits (k + 2) (acc * 256 + x) ≡ hex_digits k acc ++ hex_byte x
unfolding hex_byte hex_digits
two_digits k acc x h =
    let e : k + 2 ≡ suc (suc k) = omega arith in
    let low : (acc * 256 + x) % 16 ≡ x % 16 = omega arith in
    let mid : (acc * 256 + x) / 16 % 16 ≡ x / 16 = omega arith in
    let top : (acc * 256 + x) / 16 / 16 ≡ acc = omega arith in
    rw (e, low, mid, top) (append_assoc (hex_digits k acc) _ _)

hex_string-from :
    (k acc : ℕ) (xs : List ℕ)
    → All IsByte xs
    → hex_digits (k + 2 * length xs) (big_endian acc xs) ≡ hex_digits k acc ++ hex_string xs
unfolding hex_string
hex_string-from k acc [] h = let e : k + 0 ≡ k = omega arith in rw (e, append-nil) refl
hex_string-from k acc (x ∷ xs) h =
    let e : k + 2 * suc (length xs) ≡ k + 2 + 2 * length xs = omega arith in
    rw e (
      hex_string-from (k + 2) (acc * 256 + x) xs h.1
      ∙ ap (λ l. l ++ hex_string xs) (two_digits k acc x h.0)
      ∙ append_assoc (hex_digits k acc) (hex_byte x) (hex_string xs))

hex_string-digits :
    (xs : List ℕ) → All IsByte xs → length xs ≡ 20 → hex_string xs ≡ hex_digits 40 (big_endian 0 xs)
hex_string-digits xs h size =
    let e : 0 + 2 * length xs ≡ 40 = omega arith in
    let whole : hex_digits 0 0 ++ hex_string xs ≡ hex_string xs = unfold hex_digits in refl in
    sym (rw (← e) (hex_string-from 0 0 xs h ∙ whole))

-- For a hash of twenty bytes whose last byte is below 128, the text is its forty hexadecimal digits
-- in lower case, the first byte the highest. Where the last byte is 128 or more, an array is read
-- behind the end of its block.
pub mcpr_crypto_stringify_sha1_lem :
    (hash : List ℕ)
    → length hash ≡ 20
    → All IsByte hash
    → mcpr_crypto_stringify_sha1 hash ≡ (
        if ltb (get_or hash 19 0) 128
        then ok (hex_digits 40 (big_endian 0 hash))
        else fault use_after_free)
unfolding mcpr_crypto_stringify_sha1 is_negative
mcpr_crypto_stringify_sha1_lem hash size bytes = ground (arith, hex_string-digits hash bytes size)

-- A message and its NUL fill the buffer of mcpr_as_chat exactly.
pub length-mcpr_as_chat :
    (message : List ℕ) → length (mcpr_as_chat message) + 1 ≡ chat_buffer_size message
unfolding mcpr_as_chat chat_buffer_size
length-mcpr_as_chat message = omega (arith, length-append message (34 ∷ 125 ∷ []))
