-- ===== src/Codec/Varint/Encode.antt =====
-- What the encoders of variable-length integers write, in plain arithmetic.
use stronk.Base.{lt_wf, ℕ, zero, suc, ◌+◌, ◌/◌, ◌%◌, ◌^◌, ◌≤◌, ◌<◌, ◌≡◌, ap, ◌∙◌, arith}
use stronk.Base.{bit_and, bit_or, bit_and_low_mask, bit_or_low_high, u8, u32, u64, IsByte}
use stronk.Base.{List, [], ◌∷◌, length, All, Acc, if◌then◌else◌, ltb}
use stronk.Codec.Varint.{groups_loop, bounds_loop, encode_varint, encode_varlong, varint_bounds}

-- The base-128 digits of `v`, lowest first, each but the last with 128 added: at most `k + 1`.
unfoldable pub digits : ℕ → ℕ → List ℕ
digits zero v = v ∷ []
digits (suc k) v =
    let rest = digits k (v / 128) in if ltb v 128 then v ∷ [] else (v % 128 + 128) ∷ rest

last_group : (v : ℕ) → u8 (bit_and v 0x7F) ≡ v % 128
last_group v = omega (arith, bit_and_low_mask 7 v)

marked_group : (v : ℕ) → bit_or (u8 (bit_and v 0x7F)) 0x80 ≡ v % 128 + 128
marked_group v =
    omega
      (arith, last_group v, bit_or_low_high 7 (u8 (bit_and v 0x7F)) 1 (omega (arith, last_group v)))

pub groups_loop-digits : (k v : ℕ) (w : Acc ◌<◌ v) → v < 128 ^ suc k → groups_loop v w ≡ digits k v
unfolding groups_loop digits
groups_loop-digits zero v (Acc.intro _ smaller) h = ground (arith, last_group v)
groups_loop-digits (suc k) v (Acc.intro _ smaller) h = grind (
  arith,
  last_group v,
  marked_group v,
  λ (w : Acc ◌<◌ (v / 128)). groups_loop-digits k (v / 128) w (omega arith),
)

pub encode_varint-digits : (v : ℕ) → v < 2 ^ 32 → encode_varint v ≡ digits 4 v
unfolding encode_varint
encode_varint-digits v h =
    groups_loop-digits 4 (u32 v) _ (omega arith) ∙ ap (digits 4) (omega arith)

pub encode_varlong-digits : (v : ℕ) → v < 2 ^ 64 → encode_varlong v ≡ digits 9 v
unfolding encode_varlong
encode_varlong-digits v h =
    groups_loop-digits 9 (u64 v) _ (omega arith) ∙ ap (digits 9) (omega arith)

-- The shape of an encoding: bytes, at least one, at most `k + 1`.
pub digits-IsByte : (k v : ℕ) → v < 128 ^ suc k → All IsByte (digits k v)
unfolding digits
digits-IsByte zero v h = omega arith
digits-IsByte (suc k) v h = ground (arith, digits-IsByte k (v / 128) (omega arith))

pub length-digits : (k v : ℕ) → (1 ≤ length (digits k v)) × (length (digits k v) ≤ k + 1)
unfolding digits
length-digits zero v = omega arith
length-digits (suc k) v = ground (arith, length-digits k (v / 128))

bounds_loop-digits :
    (k v : ℕ) (w : Acc ◌<◌ v) (i : ℕ)
    → v < 128 ^ suc k
    → bounds_loop v w i ≡ i + length (digits k v)
unfolding bounds_loop digits
bounds_loop-digits zero v (Acc.intro _ smaller) i h = ground arith
bounds_loop-digits (suc k) v (Acc.intro _ smaller) i h =
    grind (arith, λ (w : Acc ◌<◌ (v / 128)). bounds_loop-digits k (v / 128) w (i + 1) (omega arith))

-- `mcpr_varint_bounds` gives exactly the number of bytes that `mcpr_encode_varint` writes.
pub varint_bounds-length : (v : ℕ) → v < 2 ^ 32 → varint_bounds v ≡ length (encode_varint v)
unfolding varint_bounds
varint_bounds-length v h =
    let small : u32 v ≡ v = omega arith in
    bounds_loop-digits 4 (u32 v) _ 0 (omega arith)
    ∙ ap (λ n. 0 + length (digits 4 n)) small
    ∙ rw (encode_varint-digits v h) (omega arith)

-- The encoding of any value cast to int32_t takes 1 to 5 bytes.
pub length-encode_varint : (v : ℕ) → (1 ≤ length (encode_varint v)) × (length (encode_varint v) ≤ 5)
unfolding encode_varint
length-encode_varint v = rw (groups_loop-digits 4 (u32 v) _ (omega arith)) (length-digits 4 (u32 v))

-- A value below 2 ^ (7 (k + 1)) takes at most `k + 1` bytes.
pub length-encode_varint-le :
    (k v : ℕ) → v < 2 ^ 32 → v < 128 ^ suc k → length (encode_varint v) ≤ k + 1
unfolding encode_varint
length-encode_varint-le k v h small =
    let same : u32 v ≡ v = omega arith in
    let fits : u32 v < 128 ^ suc k = rw same small in
    rw (groups_loop-digits k (u32 v) (lt_wf.apply (u32 v)) fits) (length-digits k (u32 v)).1
