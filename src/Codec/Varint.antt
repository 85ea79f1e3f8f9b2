-- ===== src/Codec/Varint.antt =====
-- Variable-length integers: mcpr_encode_varint, mcpr_encode_varlong, mcpr_varint_bounds,
-- mcpr_decode_varint and mcpr_decode_varlong of src/mcpr/codec.c.
-- An int32_t is its bit pattern below 2 ^ 32, an int64_t its pattern below 2 ^ 64.
pub mod Encode
pub mod Decode
pub mod RoundTrip
pub mod Wide
pub mod Reads
mod Tests
use stronk.Base.{ℕ, ◌+◌, ◌-◌, ◌*◌, ◌/◌, ◌%◌, ◌^◌, ◌<◌, bit_and, bit_or, arith}
use stronk.Base.{List, [], ◌∷◌, Acc, dite, dec_lt, lt_wf, ltb, ◌==◌, if◌then◌else◌, u8, u32, u64}
use stronk.Base.{
  Outcome, ok, err, fault, ◌>>=◌, max_len_exceeded, varint_too_long, over_read, bad_shift,
}

shift_falls : (v : ℕ) → 0 < v / 2 ^ 7 → v / 2 ^ 7 < v
shift_falls v h = omega arith

-- The do-while loop of both encoders: `tmp` is the low group of `value`, with the top bit set
-- when the shifted value is not 0, and the list is what is stored from `out[i]` on.
pub groups_loop : (value : ℕ) → Acc ◌<◌ value → List ℕ
groups_loop value (Acc.intro _ smaller) =
    let tmp = u8 (bit_and value 0x7F) in
    dite (dec_lt 0 (value / 2 ^ 7))
      (λ more. bit_or tmp 0x80 ∷ groups_loop (value / 2 ^ 7) (smaller _ (shift_falls value more)))
      (λ _. tmp ∷ [])

pub encode_varint : ℕ → List ℕ
encode_varint value = groups_loop (u32 value) (lt_wf.apply (u32 value))

pub encode_varlong : ℕ → List ℕ
encode_varlong value = groups_loop (u64 value) (lt_wf.apply (u64 value))

-- The loop of `mcpr_varint_bounds`, from `i` groups counted.
bounds_loop : (value : ℕ) → Acc ◌<◌ value → ℕ → ℕ
bounds_loop value (Acc.intro _ smaller) i =
    dite (dec_lt 0 (value / 2 ^ 7))
      (λ more. bounds_loop (value / 2 ^ 7) (smaller _ (shift_falls value more)) (i + 1))
      (λ _. i + 1)

pub varint_bounds : ℕ → ℕ
varint_bounds value = bounds_loop (u32 value) (lt_wf.apply (u32 value)) 0

-- `value << count` for an operand of type `int`: the count must be below 32. A result that does
-- not fit wraps round, which gcc and clang document.
pub shl_int : ℕ → ℕ → Outcome ℕ
shl_int value count = if ltb count 32 then ok (u32 (value * 2 ^ count)) else fault bad_shift

-- The conversion of an `int` to an int64_t.
abbrev pub sign_extend : ℕ → ℕ
sign_extend w = if ltb w (2 ^ 31) then w else w + (2 ^ 64 - 2 ^ 32)

-- The loop of both decoders at `i`: `limit` is the greatest size, and `widen` converts the
-- shifted group to the type of `result`. The list is what may be read from `in + i` on.
pub varnum_loop : ℕ → (ℕ → ℕ) → List ℕ → ℕ → ℕ → ℕ → Outcome (ℕ × ℕ)
varnum_loop limit widen [] i result max_len = fault over_read
varnum_loop limit widen (tmp ∷ mem) i result max_len =
    shl_int (bit_and tmp 0x7F) (7 * i) >>= λ group.
    let result' = bit_or result (widen group) in
    let again = varnum_loop limit widen mem (i + 1) result' max_len in
    if ltb limit (i + 1)
    then err varint_too_long
    else if ltb max_len (i + 1)
    then err max_len_exceeded
    else if bit_and tmp 0x80 == 0
    then ok (result', i + 1)
    else again

-- The value that goes to `*out`, and the number of bytes read.
pub decode_varint : List ℕ → ℕ → Outcome (ℕ × ℕ)
decode_varint mem max_len = varnum_loop 5 (λ group. group) mem 0 0 max_len

pub decode_varlong : List ℕ → ℕ → Outcome (ℕ × ℕ)
decode_varlong mem max_len = varnum_loop 10 sign_extend mem 0 0 max_len
