-- ===== src/Codec/Endian.antt =====
-- Byte order: the memory image of an integer on the little-endian machines that the server runs
-- on, and the hton/ntoh macros of src/mcpr/util.h.
use stronk.Base.{ℕ, zero, suc, ◌+◌, ◌*◌, ◌/◌, ◌%◌, ◌^◌, ◌<◌, ◌≡◌, refl, ap, ◌∙◌, arith}
use native.Mathlib.Nat.{pow-suc}
use stronk.Base.{bit_and, bit_or, bit_and_low_mask, bit_or_high_low, u8, u32, IsByte}
use stronk.Base.{List, [], ◌∷◌, ◌++◌, length, All, take, length-append}
use stronk.Base.{take-length_append, Outcome, ok, fault, over_read, leb, if◌then◌else◌}

-- What `memcpy(out, &x, n)` stores: the low byte first.
unfoldable pub bytes_of : ℕ → ℕ → List ℕ
bytes_of zero x = []
bytes_of (suc n) x = u8 x ∷ bytes_of n (x / 256)

-- What `memcpy(&x, in, n)` loads from these bytes.
unfoldable pub word_of : List ℕ → ℕ
word_of [] = 0
word_of (b ∷ bs) = b + 256 * word_of bs

-- `memcpy` from memory of which `mem` may be read.
unfoldable pub read_bytes : ℕ → List ℕ → Outcome (List ℕ)
read_bytes n mem = if leb n (length mem) then ok (take n mem) else fault over_read

-- `htons` and `htonl` of a little-endian machine; `ntohs` and `ntohl` are the same.
unfoldable pub htons : ℕ → ℕ
htons x = x % 256 * 256 + x / 256 % 256

unfoldable pub htonl : ℕ → ℕ
htonl x = x % 256 * 2 ^ 24 + x / 256 % 256 * 2 ^ 16 + x / 2 ^ 16 % 256 * 256 + x / 2 ^ 24 % 256

-- The macros `htonll` and `ntohll`, on an operand of 64 bits.
unfoldable pub htonll : ℕ → ℕ
htonll x = bit_or (htonl (bit_and x 0xFFFFFFFF) * 2 ^ 32) (htonl (u32 (x / 2 ^ 32)))

-- Network byte order: the high byte first.
abbrev pub be_bytes : ℕ → ℕ → List ℕ
be_bytes zero x = []
be_bytes (suc n) x = be_bytes n (x / 256) ++ (u8 x ∷ [])

pub htonll-sum : (x : ℕ) → htonll x ≡ htonl (x % 2 ^ 32) * 2 ^ 32 + htonl (x / 2 ^ 32 % 2 ^ 32)
unfolding htonll htonl
htonll-sum x = ground (
  arith,
  bit_and_low_mask 32 x,
  bit_or_high_low 32 (htonl (x % 2 ^ 32)) (htonl (x / 2 ^ 32 % 2 ^ 32)),
)

pub htons-htons : (x : ℕ) → x < 2 ^ 16 → htons (htons x) ≡ x
unfolding htons
htons-htons x h = omega arith

pub htonl-htonl : (x : ℕ) → x < 2 ^ 32 → htonl (htonl x) ≡ x
unfolding htonl
htonl-htonl x h = omega arith

pub htonl-lt : (x : ℕ) → htonl x < 2 ^ 32
unfolding htonl
htonl-lt x = omega arith

-- The macro turns a 64-bit word round: the halves are turned and change places.
htonll_halves :
    (x : ℕ)
    → (htonll x % 2 ^ 32 ≡ htonl (x / 2 ^ 32 % 2 ^ 32)) × (htonll x / 2 ^ 32 ≡ htonl (x % 2 ^ 32))
htonll_halves x = omega (arith, htonll-sum x, htonl-lt (x % 2 ^ 32), htonl-lt (x / 2 ^ 32 % 2 ^ 32))

pub htonll-lt : (x : ℕ) → htonll x < 2 ^ 64
htonll-lt x = omega (arith, htonll-sum x, htonl-lt (x % 2 ^ 32), htonl-lt (x / 2 ^ 32 % 2 ^ 32))

pub htonll-htonll : (x : ℕ) → x < 2 ^ 64 → htonll (htonll x) ≡ x
unfolding htonll htonl
htonll-htonll x h =
    let (low, high) = htonll_halves x in
    let (low', high') = htonll_halves (htonll x) in
    omega (
      arith,
      low' ∙ ap (λ t. htonl (t % 2 ^ 32)) high,
      high' ∙ ap htonl low,
      htonl-lt (x % 2 ^ 32),
      htonl-htonl (x % 2 ^ 32),
      htonl-htonl (x / 2 ^ 32 % 2 ^ 32),
    )

pub length-bytes_of : (n x : ℕ) → length (bytes_of n x) ≡ n
unfolding bytes_of
length-bytes_of zero x = refl
length-bytes_of (suc n) x = omega (arith, length-bytes_of n (x / 256))

pub bytes_of-IsByte : (n x : ℕ) → All IsByte (bytes_of n x)
unfolding bytes_of
bytes_of-IsByte zero x = tt
bytes_of-IsByte (suc n) x = (omega arith, bytes_of-IsByte n (x / 256))

pub word_of-bytes_of : (n x : ℕ) → x < 256 ^ n → word_of (bytes_of n x) ≡ x
unfolding word_of bytes_of
word_of-bytes_of zero x h = omega arith
word_of-bytes_of (suc n) x h =
    omega (arith, pow-suc 256 n, word_of-bytes_of n (x / 256) (omega (arith, pow-suc 256 n)))

-- Reading what stands at the front of memory.
pub read_bytes-front : (xs mem : List ℕ) (n : ℕ) → length xs ≡ n → read_bytes n (xs ++ mem) ≡ ok xs
unfolding read_bytes
read_bytes-front xs mem n e =
    rw (← e) (ground (arith, length-append xs mem, take-length_append xs mem))

-- The swapped word in memory is the word in network byte order.
pub bytes_of-htons : (x : ℕ) → bytes_of 2 (htons x) ≡ be_bytes 2 x
unfolding bytes_of htons
bytes_of-htons x = ground arith

pub bytes_of-htonl : (x : ℕ) → bytes_of 4 (htonl x) ≡ be_bytes 4 x
unfolding bytes_of htonl
bytes_of-htonl x = ground arith

pub bytes_of-htonll : (x : ℕ) → bytes_of 8 (htonll x) ≡ be_bytes 8 x
unfolding bytes_of htonl
bytes_of-htonll x = ground (arith, htonll_halves x)
