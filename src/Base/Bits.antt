-- ===== src/Base/Bits.antt =====
-- `|` and `&` of the machine words as arithmetic, and the casts to fixed widths.
use Prim.Native.Nat.{ℕ, zero, suc, ◌+◌, ◌-◌, ◌*◌, ◌/◌, ◌%◌, ◌^◌, ◌≤◌, ◌<◌, min, max}
use Prim.Native.Nat.{bit_and, bit_or, digits, bit_and-bitwise, bit_or-bitwise}
use mathlib.Core.Path.{◌≡◌, refl, ap, ◌∙◌}
use mathlib.Core.Bool.{Bool, true, ◌&&◌}
use stronk.Base.Tests.{◌==◌}
use native.Mathlib.Nat.{pow-suc, one-le-pow}
use native.Mathlib.Omega.{arith}

abbrev pub u8 : ℕ → ℕ
u8 n = n % 2 ^ 8

abbrev pub u16 : ℕ → ℕ
u16 n = n % 2 ^ 16

abbrev pub u32 : ℕ → ℕ
u32 n = n % 2 ^ 32

abbrev pub u64 : ℕ → ℕ
u64 n = n % 2 ^ 64

abbrev pub IsByte : ℕ → Type 0
IsByte b = b < 256

-- The digit recursion does not depend on its fuel, once that covers the first operand.
module _ (tail : ℕ → ℕ) (op : ℕ → ℕ → ℕ) where
  digits_any_fuel : (n a b : ℕ) → a ≤ n → digits tail op n a b ≡ digits tail op a a b
  digits_any_fuel n a b h = two n a a b h (omega arith)
    where
      two : (n m a b : ℕ) → a ≤ n → a ≤ m → digits tail op n a b ≡ digits tail op m a b
      two zero zero a b p q = refl
      two zero (suc m) zero b p q = refl
      two zero (suc m) (suc a) b p q = absurd (omega arith)
      two (suc n) zero zero b p q = refl
      two (suc n) zero (suc a) b p q = absurd (omega arith)
      two (suc n) (suc m) zero b p q = refl
      two (suc n) (suc m) (suc a) b p q =
          omega (arith, two n m (suc a / 2) (b / 2) (omega arith) (omega arith))

or_digit : (a b : ℕ) → bit_or a b ≡ bit_or (a / 2) (b / 2) * 2 + max (a % 2) (b % 2)
or_digit zero b = omega (arith, bit_or-bitwise 0 b, bit_or-bitwise 0 (b / 2))
or_digit (suc a) b = omega (
  arith,
  bit_or-bitwise (suc a) b,
  bit_or-bitwise (suc a / 2) (b / 2),
  digits_any_fuel (λ y. y) max a (suc a / 2) (b / 2) (omega arith),
)

-- `|` of two words is a word.
pub bit_or-lt : (k a b : ℕ) → a < 2 ^ k → b < 2 ^ k → bit_or a b < 2 ^ k
bit_or-lt zero zero zero ha hb = omega (arith, bit_or-bitwise 0 0)
bit_or-lt zero zero (suc b) ha hb = absurd (omega arith)
bit_or-lt zero (suc a) b ha hb = absurd (omega arith)
bit_or-lt (suc k) a b ha hb = omega (
  arith,
  or_digit a b,
  pow-suc 2 k,
  bit_or-lt k (a / 2) (b / 2) (omega (arith, pow-suc 2 k)) (omega (arith, pow-suc 2 k)),
)

pub and_digit : (a b : ℕ) → bit_and a b ≡ bit_and (a / 2) (b / 2) * 2 + min (a % 2) (b % 2)
and_digit zero b = omega (arith, bit_and-bitwise 0 b, bit_and-bitwise 0 (b / 2))
and_digit (suc a) b = omega (
  arith,
  bit_and-bitwise (suc a) b,
  bit_and-bitwise (suc a / 2) (b / 2),
  digits_any_fuel (λ y. zero) min a (suc a / 2) (b / 2) (omega arith),
)

and_none : (n a : ℕ) → a ≤ n → bit_and a 0 ≡ 0
and_none n zero h = refl
and_none zero (suc a) h = absurd (omega arith)
and_none (suc n) (suc a) h =
    omega (arith, and_digit (suc a) 0, and_none n (suc a / 2) (omega arith))

double_power : (q k : ℕ) → q * 2 ^ suc k ≡ q * 2 ^ k * 2
double_power q k = omega (arith, ap (λ (t : ℕ). q * t) (pow-suc 2 k))

-- `r | (q << k)` is a sum when `r` fits `k` bits.
pub bit_or_low_high : (k r q : ℕ) → r < 2 ^ k → bit_or r (q * 2 ^ k) ≡ r + q * 2 ^ k
bit_or_low_high zero zero q h = omega (arith, bit_or-bitwise 0 (q * 1))
bit_or_low_high zero (suc r) q h = absurd (omega arith)
bit_or_low_high (suc k) r q h =
    ground (
      arith,
      or_digit r (q * 2 ^ suc k),
      double_power q k,
      pow-suc 2 k,
      bit_or_low_high k (r / 2) q,
    )

or_none : (n a : ℕ) → a ≤ n → bit_or a 0 ≡ a
or_none n zero h = refl
or_none zero (suc a) h = absurd (omega arith)
or_none (suc n) (suc a) h = omega (arith, or_digit (suc a) 0, or_none n (suc a / 2) (omega arith))

-- The same with the operands the other way round.
pub bit_or_high_low : (k q r : ℕ) → r < 2 ^ k → bit_or (q * 2 ^ k) r ≡ q * 2 ^ k + r
bit_or_high_low zero q zero h = ground (arith, or_none (q * 1) (q * 1))
bit_or_high_low zero q (suc r) h = absurd (omega arith)
bit_or_high_low (suc k) q r h =
    ground (
      arith,
      or_digit (q * 2 ^ suc k) r,
      double_power q k,
      pow-suc 2 k,
      bit_or_high_low k q (r / 2),
    )

-- The lower `k` bits of one operand are 0: those of the other are kept.
pub bit_or-split :
    (k a b r : ℕ) → r < 2 ^ k → bit_or (a * 2 ^ k) (b * 2 ^ k + r) ≡ bit_or a b * 2 ^ k + r
bit_or-split zero a b zero h =
    let left : a * 2 ^ 0 ≡ a = omega arith in
    let right : b * 2 ^ 0 + 0 ≡ b = omega arith in
    ap (λ (x : ℕ). bit_or x (b * 2 ^ 0 + 0)) left ∙ ap (bit_or a) right ∙ omega arith
bit_or-split zero a b (suc r) h = absurd (omega arith)
bit_or-split (suc k) a b r h = ground (
  arith,
  or_digit (a * 2 ^ suc k) (b * 2 ^ suc k + r),
  double_power a k,
  double_power b k,
  double_power (bit_or a b) k,
  pow-suc 2 k,
  bit_or-split k a b (r / 2),
)

-- Ones swallow the other operand.
pub bit_or-ones : (k a : ℕ) → a < 2 ^ k → bit_or a (2 ^ k - 1) ≡ 2 ^ k - 1
bit_or-ones zero zero h = refl
bit_or-ones zero (suc a) h = absurd (omega arith)
bit_or-ones (suc k) a h =
    ground (arith, or_digit a (2 ^ suc k - 1), pow-suc 2 k, one-le-pow k 2, bit_or-ones k (a / 2))

low_mask : (k q r : ℕ) → r < 2 ^ k → bit_and (r + q * 2 ^ k) (2 ^ k - 1) ≡ r
low_mask zero q r h = ground (arith, and_none (r + q * 1) (r + q * 1))
low_mask (suc k) q r h = ground (
  arith,
  and_digit (r + q * 2 ^ suc k) (2 ^ suc k - 1),
  double_power q k,
  pow-suc 2 k,
  one-le-pow k 2,
  low_mask k q (r / 2),
)

-- A mask of `k` ones is the remainder by `2 ^ k`.
pub bit_and_low_mask : (k a : ℕ) → bit_and a (2 ^ k - 1) ≡ a % 2 ^ k
bit_and_low_mask k a = ground (arith, one-le-pow k 2, low_mask k (a / 2 ^ k) (a % 2 ^ k))

-- Masks of one byte, checked value by value.
module _ (f g : ℕ → ℕ) where
  same_below : ℕ → Bool
  same_below zero = true
  same_below (suc n) = (f n == g n) && same_below n

  same_below_sound : (n : ℕ) → same_below n ≡ true → (b : ℕ) → b < n → f b ≡ g b
  unfolding same_below
  same_below_sound zero e b h = absurd (omega arith)
  same_below_sound (suc n) e b h = ground (arith, same_below_sound n (ground arith) b)

-- The top bit of a byte, which marks that a variable-length number goes on.
pub top_bit : (b : ℕ) → b < 256 → bit_and b 0x80 ≡ b / 128 * 128
unfolding same_below
top_bit = same_below_sound (λ b. bit_and b 0x80) (λ b. b / 128 * 128) 256 refl
