-- ===== src/Codec/Varint/Wide.antt =====
-- `mcpr_decode_varlong` shifts an `int`, so it does not read back every int64_t.
use stronk.Base.{ℕ, suc, ◌+◌, ◌-◌, ◌*◌, ◌/◌, ◌%◌, ◌^◌, ◌≤◌, ◌<◌, ◌≡◌, ap, ap₂, sym, ◌∙◌, arith}
use stronk.Base.{dec_lt, List, [], ◌∷◌, ◌++◌, length, length-append, ok, fault, bad_shift, u32, u64}
use stronk.Base.{bit_or_low_high, top_bit}
use stronk.Codec.Varint.{shl_int, varnum_loop, encode_varlong, decode_varlong, sign_extend}
use stronk.Codec.Varint.Encode.{digits, length-digits, encode_varlong-digits, groups_loop-digits}
use stronk.Codec.Varint.Decode.{low_group, round_marked}
use stronk.Codec.Varint.RoundTrip.{loop-digits}

digits_more : (k w : ℕ) → 128 ≤ w → digits (suc k) w ≡ (w % 128 + 128) ∷ digits k (w / 128)
unfolding digits
digits_more k w h = ground arith

-- One marked byte at `i ≤ 3`: its group stays below 2 ^ 28, so the sign bit is not touched.
marked_below_four :
    (i k w r max : ℕ) (mem : List ℕ)
    → i ≤ 3
    → 128 ≤ w
    → 4 < max
    → r < 2 ^ (7 * i)
    → w % 128 * 2 ^ (7 * i) < 2 ^ 28
    → varnum_loop 10 sign_extend (digits (suc k) w ++ mem) i r max
      ≡ varnum_loop 10 sign_extend
          (digits k (w / 128) ++ mem)
          (i + 1)
          (r + w % 128 * 2 ^ (7 * i))
          max
marked_below_four i k w r max mem hi hw hm hr fits = ground (
  arith,
  digits_more k w hw,
  round_marked 10 sign_extend (w % 128) i r max (digits k (w / 128) ++ mem),
)

first_four :
    (m v max : ℕ) (mem : List ℕ)
    → 2 ^ 28 ≤ v
    → 4 < max
    → varnum_loop 10 sign_extend (digits (suc (suc (suc (suc m)))) v ++ mem) 0 0 max
      ≡ varnum_loop 10 sign_extend (digits m (v / 2 ^ 28) ++ mem) 4 (v % 2 ^ 28) max
first_four m v max mem hv hm =
    marked_below_four 0 (suc (suc (suc m))) v 0 max mem (omega arith) (omega arith) hm (omega arith)
      (omega arith)
    ∙ marked_below_four 1 (suc (suc m)) (v / 128) _ max mem (omega arith) (omega arith) hm
        (omega arith) (omega arith)
    ∙ marked_below_four 2 (suc m) (v / 128 / 128) _ max mem (omega arith) (omega arith) hm
        (omega arith) (omega arith)
    ∙ marked_below_four 3 m (v / 128 / 128 / 128) _ max mem (omega arith) (omega arith) hm
        (omega arith) (omega arith)
    ∙ ap₂ (λ (a b : ℕ). varnum_loop 10 sign_extend (digits m a ++ mem) 4 b max) (omega arith)
        (omega arith)

-- The fifth byte: its group is shifted as an `int`, and the sign is spread over the int64_t.
fifth_last :
    (w r max : ℕ) (mem : List ℕ)
    → w < 128
    → 4 < max
    → r < 2 ^ 28
    → varnum_loop 10 sign_extend (w ∷ mem) 4 r max ≡ ok (sign_extend (u32 (r + w * 2 ^ 28)), 5)
unfolding varnum_loop shl_int
fifth_last w r max mem hw hm hr = ground (
  arith,
  low_group w,
  top_bit w,
  bit_or_low_high 28 r (w % 16),
  bit_or_low_high 28 r (w % 16 + (2 ^ 36 - 16)),
)

-- A sixth byte is shifted by 35.
sixth_faults :
    (w r max : ℕ) (mem : List ℕ)
    → w < 128
    → 5 < max
    → 0 < length mem
    → varnum_loop 10 sign_extend ((w + 128) ∷ mem) 4 r max ≡ fault bad_shift
unfolding varnum_loop shl_int
sixth_faults w r max [] hw hm more = absurd (omega arith)
sixth_faults w r max (x ∷ mem) hw hm more = ground (arith, low_group (w + 128), top_bit (w + 128))

encode_short : (v : ℕ) → v < 2 ^ 35 → encode_varlong v ≡ digits 4 v
unfolding encode_varlong
encode_short v h =
    let small : u64 v ≡ v = omega arith in
    groups_loop-digits 4 (u64 v) _ (omega arith) ∙ ap (digits 4) small

length-four :
    (m v : ℕ)
    → 2 ^ 28 ≤ v
    → length (digits (suc (suc (suc (suc m)))) v) ≡ 4 + length (digits m (v / 2 ^ 28))
length-four m v hv =
    let same : v / 128 / 128 / 128 / 128 ≡ v / 2 ^ 28 = omega arith in
    rw
      (
        digits_more (suc (suc (suc m))) v (omega arith),
        digits_more (suc (suc m)) (v / 128) (omega arith),
        digits_more (suc m) (v / 128 / 128) (omega arith),
        digits_more m (v / 128 / 128 / 128) (omega arith),
        same,
      )
      (omega arith)

below_28 :
    (v : ℕ) (mem : List ℕ) (max : ℕ)
    → v < 2 ^ 28
    → length (digits 4 v) ≤ max
    → varnum_loop 10 sign_extend (digits 4 v ++ mem) 0 0 max
      ≡ ok (sign_extend (u32 v), length (digits 4 v))
below_28 v mem max h room = ground (
  arith,
  loop-digits 10 sign_extend (2 ^ 31 - 1) (omega arith) (omega arith) (λ x p. ground arith) 4 v 0 0
      max mem,
)

from_28 :
    (v : ℕ) (mem : List ℕ) (max : ℕ)
    → 2 ^ 28 ≤ v
    → v < 2 ^ 35
    → length (digits 4 v) ≤ max
    → varnum_loop 10 sign_extend (digits 4 v ++ mem) 0 0 max
      ≡ ok (sign_extend (u32 v), length (digits 4 v))
unfolding digits
from_28 v mem max lo hi room =
    let five : length (digits 4 v) ≡ 5 = omega (arith, length-four 0 v lo) in
    let back : v % 2 ^ 28 + v / 2 ^ 28 * 2 ^ 28 ≡ v = omega arith in
    first_four 0 v max mem lo (omega arith)
    ∙ fifth_last (v / 2 ^ 28) (v % 2 ^ 28) max mem (omega arith) (omega arith) (omega arith)
    ∙ ap₂ (λ (a b : ℕ). ok (sign_extend (u32 a), b)) back (sym five)

-- An int64_t below 2 ^ 35 comes back with its upper half replaced by copies of bit 31: so it
-- comes back unchanged exactly when it is below 2 ^ 31.
pub decode_varlong-encode_varlong :
    (v : ℕ) (mem : List ℕ) (max : ℕ)
    → v < 2 ^ 35
    → length (encode_varlong v) ≤ max
    → decode_varlong (encode_varlong v ++ mem) max
      ≡ ok (sign_extend (u32 v), length (encode_varlong v))
unfolding decode_varlong
decode_varlong-encode_varlong v mem max h room = rw (encode_short v h) (elim (dec_lt v (2 ^ 28)) [
  | yes low ↦ below_28 v mem max low (rw (encode_short v h) at room)
  | no high ↦ from_28 v mem max (omega arith) h (rw (encode_short v h) at room)
])

-- The encoding of an int64_t of 2 ^ 35 or more, a negative one included, is six bytes or more,
-- and decoding it always runs into the undefined shift.
pub decode_varlong_faults :
    (v : ℕ) (mem : List ℕ) (max : ℕ)
    → 2 ^ 35 ≤ v
    → v < 2 ^ 64
    → 6 ≤ max
    → decode_varlong (encode_varlong v ++ mem) max ≡ fault bad_shift
unfolding decode_varlong
decode_varlong_faults v mem max lo h room =
    let w = v / 2 ^ 28 in
    rw (encode_varlong-digits v h) (
      first_four 5 v max mem (omega arith) (omega arith)
      ∙ ap (λ l. varnum_loop 10 sign_extend (l ++ mem) 4 (v % 2 ^ 28) max)
          (digits_more 4 w (omega arith))
      ∙ sixth_faults (w % 128) (v % 2 ^ 28) max (digits 4 (w / 128) ++ mem) (omega arith)
          (omega arith)
          (omega (arith, length-digits 4 (w / 128), length-append (digits 4 (w / 128)) mem)))
