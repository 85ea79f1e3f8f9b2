-- ===== src/Codec/Position/Laws.antt =====
-- Positions read back.
use stronk.Base.{ℕ, ◌+◌, ◌-◌, ◌*◌, ◌%◌, ◌^◌, ◌≤◌, ◌<◌, ◌≡◌, ◌⊎◌, ap, ◌∙◌, arith}
use stronk.Base.{List, ◌++◌, ok, bit_and, bit_or, bit_and_low_mask, bit_or_high_low}
use stronk.Codec.Endian.{htonll, htonll-lt, htonll-htonll}
use stronk.Codec.Fixed.{encode_long}
use stronk.Codec.Fixed.Laws.{load}
use stronk.Codec.Position.{Position, sar64, shl64, unpack, encode_position, decode_position}

-- A 64-bit pattern of a number from -2 ^ 25 to 2 ^ 25 - 1.
abbrev pub Fits26 : ℕ → Type 0
Fits26 w = (w < 2 ^ 25) ⊎ ((2 ^ 64 - 2 ^ 25 ≤ w) × (w < 2 ^ 64))

packed : Position → ℕ
packed p = p.x % 2 ^ 26 * 2 ^ 38 + p.y % 2 ^ 12 * 2 ^ 26 + p.z % 2 ^ 26

pos-packed :
    (p : Position)
    → bit_or
        (bit_or (shl64 (bit_and p.x 0x3FFFFFF) 38) (shl64 (bit_and p.y 0xFFF) 26))
        (bit_and p.z 0x3FFFFFF)
      ≡ packed p
unfolding packed
pos-packed p =
    let x = p.x % 2 ^ 26 in
    let y = p.y % 2 ^ 12 in
    ground (
      arith,
      bit_and_low_mask 26 p.x,
      bit_and_low_mask 12 p.y,
      bit_and_low_mask 26 p.z,
      bit_or_high_low 38 x (y * 2 ^ 26),
      bit_or_high_low 26 (x * 2 ^ 12 + y) (p.z % 2 ^ 26),
    )

packed-lt : (p : Position) → packed p < 2 ^ 64
unfolding packed
packed-lt p = omega arith

unpacked :
    (p : Position)
    → Fits26 p.x
    → Fits26 p.z
    → (sar64 (packed p) 38 ≡ p.x)
      × (bit_and (sar64 (packed p) 26) 0xFFF ≡ p.y % 2 ^ 12)
      × (sar64 (shl64 (packed p) 38) 38 ≡ p.z)
unfolding packed
unpacked p hx hz = ground (
  arith,
  bit_and_low_mask 12 (sar64 (p.x % 2 ^ 26 * 2 ^ 38 + p.y % 2 ^ 12 * 2 ^ 26 + p.z % 2 ^ 26) 26),
)

-- A position whose `x` and `z` fit 26 bits, with their signs, comes back from its encoding, but
-- for `y`, of which the low 12 bits come back with no sign: `y` comes back if it is from 0 to
-- 4095, and a `y` from -2048 to -1 comes back raised by 4096.
pub decode_position-encode_position :
    (p : Position) (mem : List ℕ)
    → Fits26 p.x
    → Fits26 p.z
    → decode_position (encode_position p ++ mem)
      ≡ ok (record { x = p.x; y = p.y % 2 ^ 12; z = p.z })
unfolding decode_position encode_position encode_long
decode_position-encode_position p mem hx hz =
    let w = packed p in
    rw (pos-packed p) (
      load 8 (htonll w) mem (λ v. unpack (htonll v)) (htonll-lt w)
      ∙ ap (λ v. ok (unpack v)) (htonll-htonll w (packed-lt p))
      ∙ ground (arith, unpacked p hx hz))
