-- ===== src/Crypto/Tests.antt =====
-- The SHA-1 text of src/mcpr/crypto.c at fixed inputs.
use stronk.Base.{◌≡◌, refl, arith, List, ℕ, [], ◌∷◌}
use stronk.Base.{ok}
use stronk.Crypto.{mcpr_crypto_stringify_sha1}
use stronk.Crypto.Laws.{hex_digits, big_endian, mcpr_crypto_stringify_sha1_lem}

-- The SHA-1 of "jeb_".
abbrev jeb_hash : List ℕ
jeb_hash =
    0x83 ∷ 0x62 ∷ 0xa4 ∷ 0xff ∷ 0xbb ∷ 0x3e ∷ 0xcf ∷ 0xef ∷ 0x65 ∷ 0xa2 ∷ 0x84 ∷ 0xa0 ∷ 0x4a ∷ 0x3c
    ∷ 0xe8 ∷ 0x3f ∷ 0xd4 ∷ 0xb1 ∷ 0xd7 ∷ 0x3f ∷ []

mcpr_crypto_stringify_sha1_lem_example :
    mcpr_crypto_stringify_sha1 jeb_hash ≡ ok (hex_digits 40 (big_endian 0 jeb_hash))
mcpr_crypto_stringify_sha1_lem_example = mcpr_crypto_stringify_sha1_lem jeb_hash refl (omega arith)
