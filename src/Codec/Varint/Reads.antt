-- ===== src/Codec/Varint/Reads.antt =====
-- What `mcpr_decode_varint` does on any memory, well formed or not.
use stronk.Base.{ℕ, ◌+◌, ◌*◌, ◌^◌, ◌≤◌, ◌<◌, ◌≡◌, ◌≢◌, arith}
use stronk.Base.{bit_and, bit_or, bit_or-lt, top_bit, u32}
use stronk.Base.{List, [], ◌∷◌, ◌++◌, length, All, ok, err, fault}
use stronk.Base.{over_read, varint_too_long}
use stronk.Codec.Varint.{shl_int, varnum_loop, decode_varint}

abbrev keep : ℕ → ℕ
keep group = group

loop_takes :
    (mem : List ℕ) (i r max v n : ℕ)
    → i ≤ 5
    → r < 2 ^ 32
    → varnum_loop 5 keep mem i r max ≡ ok (v, n)
    → (v < 2 ^ 32) × (i < n) × (n ≤ 5) × (n ≤ max) × (n ≤ i + length mem)
unfolding varnum_loop shl_int
loop_takes [] i r max v n hi hr e = cc
loop_takes (b ∷ mem) i r max v n hi hr e =
    let r' = bit_or r (u32 (bit_and b 0x7F * 2 ^ (7 * i))) in
    ground (
      arith,
      bit_or-lt 32 r (u32 (bit_and b 0x7F * 2 ^ (7 * i))),
      loop_takes mem (i + 1) r' max v n,
    )

-- A successful decoding gives an int32_t and takes 1 to 5 bytes, within `max_len` and within
-- what may be read.
pub decode_varint_takes :
    (mem : List ℕ) (max v n : ℕ)
    → decode_varint mem max ≡ ok (v, n)
    → (v < 2 ^ 32) × (1 ≤ n) × (n ≤ 5) × (n ≤ max) × (n ≤ length mem)
unfolding decode_varint
decode_varint_takes mem max v n e = ground (arith, loop_takes mem 0 0 max v n)

loop-append :
    (mem more : List ℕ) (i r max v n : ℕ)
    → varnum_loop 5 keep mem i r max ≡ ok (v, n)
    → varnum_loop 5 keep (mem ++ more) i r max ≡ ok (v, n)
unfolding varnum_loop shl_int
loop-append [] more i r max v n e = cc
loop-append (b ∷ mem) more i r max v n e =
    ground
      (arith, loop-append mem more (i + 1) (bit_or r (u32 (bit_and b 0x7F * 2 ^ (7 * i)))) max v n)

-- The bytes behind the number do not change what is decoded.
pub decode_varint-append :
    (mem more : List ℕ) (max v n : ℕ)
    → decode_varint mem max ≡ ok (v, n)
    → decode_varint (mem ++ more) max ≡ ok (v, n)
unfolding decode_varint
decode_varint-append mem more max v n e = loop-append mem more 0 0 max v n e

loop-ne-too_long :
    (mem : List ℕ) (i r max : ℕ) → i ≤ 5 → varnum_loop 5 keep mem i r max ≢ err varint_too_long
unfolding varnum_loop shl_int
loop-ne-too_long [] i r max hi e = cc
loop-ne-too_long (b ∷ mem) i r max hi e =
    ground (arith, loop-ne-too_long mem (i + 1) (bit_or r (u32 (bit_and b 0x7F * 2 ^ (7 * i)))) max)

-- The error "Varint size exceeded 5 bytes." is never returned: before the size is tested for the
-- sixth byte, that byte is shifted by 35.
pub decode_varint-ne-too_long :
    (mem : List ℕ) (max : ℕ) → decode_varint mem max ≢ err varint_too_long
unfolding decode_varint
decode_varint-ne-too_long mem max e = loop-ne-too_long mem 0 0 max (omega arith) e

abbrev IsMarked : ℕ → Type 0
IsMarked b = (128 ≤ b) × (b < 256)

loop-All_marked :
    (mem : List ℕ) (i r max : ℕ)
    → i + length mem ≡ max
    → max ≤ 4
    → All IsMarked mem
    → varnum_loop 5 keep mem i r max ≡ fault over_read
unfolding varnum_loop shl_int
loop-All_marked [] i r max e h m = ground arith
loop-All_marked (b ∷ mem) i r max e h m = ground (
  arith,
  top_bit b,
  loop-All_marked mem (i + 1) (bit_or r (u32 (bit_and b 0x7F * 2 ^ (7 * i)))) max,
)

-- The length is tested only after a byte was read: of a number that is cut off after `max_len`
-- bytes, at most 4, the decoder reads one byte more than it may.
pub decode_varint_over_reads :
    (mem : List ℕ)
    → length mem ≤ 4
    → All IsMarked mem
    → decode_varint mem (length mem) ≡ fault over_read
unfolding decode_varint
decode_varint_over_reads mem h m = loop-All_marked mem 0 0 (length mem) (omega arith) h m

loop_safe :
    (mem : List ℕ) (i r max : ℕ)
    → max < i + length mem
    → i ≤ max
    → varnum_loop 5 keep mem i r max ≢ fault over_read
unfolding varnum_loop shl_int
loop_safe [] i r max h hi e = absurd (omega arith)
loop_safe (b ∷ mem) i r max h hi e =
    ground (arith, loop_safe mem (i + 1) (bit_or r (u32 (bit_and b 0x7F * 2 ^ (7 * i)))) max)

-- With one readable byte more than `max_len`, no read is out of range.
pub decode_varint_safe :
    (mem : List ℕ) (max : ℕ) → max < length mem → decode_varint mem max ≢ fault over_read
unfolding decode_varint
decode_varint_safe mem max h e = loop_safe mem 0 0 max (omega arith) (omega arith) e
