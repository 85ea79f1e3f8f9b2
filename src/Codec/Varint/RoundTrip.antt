-- ===== src/Codec/Varint/RoundTrip.antt =====
-- Decoding what was encoded.
use stronk.Base.{ℕ, zero, suc, ◌+◌, ◌-◌, ◌*◌, ◌/◌, ◌%◌, ◌^◌, ◌≤◌, ◌<◌, ◌≡◌, refl, ap, arith}
use stronk.Base.{List, ◌++◌, length, ok}
use stronk.Codec.Varint.{varnum_loop, encode_varint, decode_varint}
use stronk.Codec.Varint.Encode.{digits, length-digits, encode_varint-digits}
use stronk.Codec.Varint.Decode.{round_last, round_marked, power_up}
use native.Mathlib.Nat.{div-add-mod}

-- The value still to be read, cut into its lowest group and the rest, both from bit `7 * i` on.
cut_group : (w i : ℕ) → w * 2 ^ (7 * i) ≡ w % 128 * 2 ^ (7 * i) + w / 128 * 2 ^ (7 * (i + 1))
cut_group w i = omega (
  arith,
  ap (λ (t : ℕ). t * 2 ^ (7 * i)) (div-add-mod w 128),
  ap (λ (t : ℕ). w / 128 * t) (power_up i),
)

below_next : (q r p : ℕ) → q < 128 → r < p → r + q * p < 128 * p
below_next q r p hq hr = grind arith

-- The values for which `widen` does nothing, `top` or less.
module _ (limit : ℕ) (widen : ℕ → ℕ) (top : ℕ) (five : 5 ≤ limit) (small : top < 2 ^ 32)
    (same : (x : ℕ) → x ≤ top → widen x ≡ x) where
  pub loop-digits :
      (k w i r max : ℕ) (mem : List ℕ)
      → i + k ≡ 4
      → w < 128 ^ suc k
      → r < 2 ^ (7 * i)
      → w * 2 ^ (7 * i) ≤ top
      → i + length (digits k w) ≤ max
      → varnum_loop limit widen (digits k w ++ mem) i r max
        ≡ ok (r + w * 2 ^ (7 * i), i + length (digits k w))
  unfolding digits
  loop-digits zero w i r max mem e hw hr fits room =
      round_last limit widen w i r max mem (omega arith) (omega arith) (omega arith) (omega arith)
        hr (omega arith) (same _ fits)
  loop-digits (suc k) w i r max mem e hw hr fits room = ground (
    arith,
    cut_group w i,
    power_up i,
    below_next (w % 128) r (2 ^ (7 * i)),
    same (w * 2 ^ (7 * i)),
    same (w % 128 * 2 ^ (7 * i)),
    length-digits k (w / 128),
    round_last limit widen w i r max mem,
    round_marked limit widen (w % 128) i r max (digits k (w / 128) ++ mem),
    loop-digits k (w / 128) (i + 1) (r + w % 128 * 2 ^ (7 * i)) max mem,
  )

pub decode_varint-digits :
    (v : ℕ) (mem : List ℕ) (max : ℕ)
    → v < 2 ^ 32
    → length (digits 4 v) ≤ max
    → decode_varint (digits 4 v ++ mem) max ≡ ok (v, length (digits 4 v))
unfolding decode_varint
decode_varint-digits v mem max h room = ground (
  arith,
  loop-digits 5 (λ group. group) (2 ^ 32 - 1) (omega arith) (omega arith) (λ x p. refl) 4 v 0 0 max
      mem,
)

-- What `mcpr_encode_varint` writes, `mcpr_decode_varint` reads back, for every int32_t and
-- whatever follows in memory, if the length that it is given covers the encoding; it reads
-- exactly as many bytes as were written.
pub decode_varint-encode_varint :
    (v : ℕ) (mem : List ℕ) (max : ℕ)
    → v < 2 ^ 32
    → length (encode_varint v) ≤ max
    → decode_varint (encode_varint v ++ mem) max ≡ ok (v, length (encode_varint v))
decode_varint-encode_varint v mem max h room =
    let e = encode_varint-digits v h in rw e (decode_varint-digits v mem max h (rw e at room))
