-- ===== src/World/Pack.antt =====
-- encode_chunk_section_blocks of src/world/world.c packs 13 bits per block, the first lowest.
use stronk.Base.{
  ℕ, suc, zero, ◌+◌, ◌-◌, ◌*◌, ◌/◌, ◌%◌, ◌^◌, ◌≤◌, ◌<◌, ◌≡◌, refl, ap, ◌∙◌, sym, arith,
}
use stronk.Base.{List, [], ◌∷◌, map, length, All, bit_or, u64, bit_or_low_high, true, false, leb}
use stronk.Base.{dec_lt, ap₂}
use native.Mathlib.Nat.{
  div-add-mod, add-mul-mod_self_left, mod-eq_of_lt, mod-lt, pow-suc, one-le-pow, pow-le-pow_right,
  mul-le-mul_left, div-eq_of_lt,
}
use stronk.Codec.Endian.{htonll}
use stronk.World.{Block, block_data, pack_next, pack_loop}

-- The blocks as one number, 13 bits for each.
unfoldable pub stream : List Block → ℕ
stream [] = 0
stream (block ∷ blocks) = block_data block + 2 ^ 13 * stream blocks

-- The 64-bit digits of a number, the lowest first.
unfoldable pub words_of : ℕ → ℕ → List ℕ
words_of zero n = []
words_of (suc k) n = n % 2 ^ 64 ∷ words_of k (n / 2 ^ 64)

abbrev pub Fits13 : Block → Type 0
Fits13 block = block_data block < 2 ^ 13

mod_scaled : (d b c : ℕ) → 0 < b → 0 < c → (d * b) % (b * c) ≡ (d % c) * b
mod_scaled d b c hb hc =
    let whole : c * (d / c) + d % c ≡ d = div-add-mod d c in
    let low : (d % c) * b < b * c = grind (arith, mod-lt d hc) in
    let sum : d * b ≡ (d % c) * b + b * c * (d / c) = grind (arith, ap (λ (m : ℕ). b * m) whole) in
    ap (λ (n : ℕ). n % (b * c)) sum
    ∙ add-mul-mod_self_left ((d % c) * b) (b * c) (d / c)
    ∙ mod-eq_of_lt low

add_zero : (m : ℕ) → m + 0 ≡ m
add_zero m = omega arith

pub pow-add : (m n : ℕ) → 2 ^ (m + n) ≡ 2 ^ m * 2 ^ n
pow-add m zero = ap (λ (n : ℕ). 2 ^ n) (add_zero m) ∙ omega arith
pow-add m (suc n) =
    grind (arith, pow-suc 2 (m + n), pow-suc 2 n, pow-add m n, ap (λ (k : ℕ). k * 2) (pow-add m n))

split_word :
    (t d s b c o : ℕ)
    → b * c ≡ 2 ^ 64
    → c * o ≡ 2 ^ 13
    → t < b
    → 0 < c
    → t + b * (d + 2 ^ 13 * s) ≡ (t + (d % c) * b) + 2 ^ 64 * (d / c + o * s)
split_word t d s b c o e f h hc =
    let whole : c * (d / c) + d % c ≡ d = div-add-mod d c in
    grind (
      arith,
      ap (λ (m : ℕ). b * m) whole,
      ap (λ (m : ℕ). m * (d / c)) e,
      ap (λ (m : ℕ). b * (m * s)) f,
      ap (λ (m : ℕ). m * (o * s)) e,
    )

word_lt : (t d b c : ℕ) → b * c ≡ 2 ^ 64 → t < b → 0 < c → t + (d % c) * b < 2 ^ 64
word_lt t d b c e h hc = grind arith

high_lt : (d c o : ℕ) → c * o ≡ 2 ^ 13 → 0 < c → d < 2 ^ 13 → d / c < o
high_lt d c o e hc h = grind arith

powers : (b : ℕ) → b ≤ 64 → 2 ^ b * 2 ^ (64 - b) ≡ 2 ^ 64
powers b h =
    let sum : b + (64 - b) ≡ 64 = omega arith in
    sym (pow-add b (64 - b)) ∙ ap (λ (n : ℕ). 2 ^ n) sum

merged :
    (b t d : ℕ) → b < 64 → t < 2 ^ b → bit_or t (u64 (d * 2 ^ b)) ≡ t + (d % 2 ^ (64 - b)) * 2 ^ b
merged b t d h ht =
    let scaled : u64 (d * 2 ^ b) ≡ (d % 2 ^ (64 - b)) * 2 ^ b =
      ap (λ (m : ℕ). (d * 2 ^ b) % m) (sym (powers b (omega arith)))
      ∙ mod_scaled d (2 ^ b) (2 ^ (64 - b)) (one-le-pow b 2 (omega arith))
          (one-le-pow (64 - b) 2 (omega arith)) in
    ap (bit_or t) scaled ∙ bit_or_low_high b t (d % 2 ^ (64 - b)) ht

-- No word is stored.
bits_short :
    (b t d : ℕ)
    → b + 13 < 64
    → t < 2 ^ b
    → d < 2 ^ 13
    → (bit_or t (u64 (d * 2 ^ b)) ≡ t + 2 ^ b * d) × (t + 2 ^ b * d < 2 ^ (b + 13))
bits_short b t d hb ht hd =
    let room : 2 ^ 13 ≤ 2 ^ (64 - b) =
      pow-le-pow_right {n = 2} (omega arith) {i = 13} {j = 64 - b} (omega arith) in
    let whole : d % 2 ^ (64 - b) ≡ d = mod-eq_of_lt (omega arith) in
    (
      merged b t d (omega arith) ht ∙ ap (λ (n : ℕ). t + n * 2 ^ b) whole ∙ grind arith,
      grind (arith, pow-add b 13, mul-le-mul_left {m = d + 1} {n = 2 ^ 13} (2 ^ b) (omega arith)),
    )

-- A word is stored: what it is, and what is left of the block for the next one.
next_full :
    (used d tmp : ℕ)
    → 64 ≤ used
    → used < 77
    → d < 2 ^ 13
    → pack_next used d tmp true ≡ (used - 64, d / 2 ^ (77 - used))
unfolding pack_next
next_full used d tmp lo hi hd = elim (dec_lt 64 used) [
  | yes over ↦ let shift : 13 - (used - 64) ≡ 77 - used = omega arith in rw shift (ground arith)
  | no exact ↦ let all : used ≡ 64 = omega arith in rw all (ground (arith, div-eq_of_lt hd))
]

step_full :
    (block : Block) (blocks : List Block) (b t : ℕ)
    → b < 64
    → 64 ≤ b + 13
    → block_data block < 2 ^ 13
    → pack_loop (block ∷ blocks) b t
      ≡ htonll (bit_or t (u64 (block_data block * 2 ^ b)))
        ∷ pack_loop blocks (b + 13 - 64) (block_data block / 2 ^ (64 - b))
unfolding pack_loop
step_full block blocks b t hb h hd =
    let stored : leb 64 (b + 13) ≡ true = ground arith in
    let count : 77 - (b + 13) ≡ 64 - b = omega arith in
    rw
      (
        stored,
        next_full (b + 13) (block_data block) (bit_or t (u64 (block_data block * 2 ^ b))) h
            (omega arith) hd,
        count,
      )
      refl

step_short :
    (block more : Block) (blocks : List Block) (b t : ℕ)
    → b + 13 < 64
    → pack_loop (block ∷ more ∷ blocks) b t
      ≡ pack_loop (more ∷ blocks) (b + 13) (bit_or t (u64 (block_data block * 2 ^ b)))
unfolding pack_loop pack_next
step_short block more blocks b t h =
    let kept : leb 64 (b + 13) ≡ false = ground arith in rw kept refl

halves : (b : ℕ) → b < 64 → 64 ≤ b + 13 → 2 ^ (64 - b) * 2 ^ (b + 13 - 64) ≡ 2 ^ 13
halves b hb h =
    let sum : 64 - b + (b + 13 - 64) ≡ 13 = omega arith in
    sym (pow-add (64 - b) (b + 13 - 64)) ∙ ap (λ (k : ℕ). 2 ^ k) sum

full_word :
    (b t d s n : ℕ)
    → b < 64
    → 64 ≤ b + 13
    → t < 2 ^ b
    → d < 2 ^ 13
    → words_of (suc n) (t + 2 ^ b * (d + 2 ^ 13 * s))
      ≡ bit_or t (u64 (d * 2 ^ b)) ∷ words_of n (d / 2 ^ (64 - b) + 2 ^ (b + 13 - 64) * s)
unfolding words_of
full_word b t d s n hb h ht hd =
    let c = 2 ^ (64 - b) in
    let o = 2 ^ (b + 13 - 64) in
    let parts : c * o ≡ 2 ^ 13 = halves b hb h in
    let pos : 0 < c = one-le-pow (64 - b) 2 (omega arith) in
    let word = t + (d % c) * 2 ^ b in
    let small : word < 2 ^ 64 = word_lt t d (2 ^ b) c (powers b (omega arith)) ht pos in
    let split = split_word t d s (2 ^ b) c o (powers b (omega arith)) parts ht pos in
    rw (split, merged b t d hb ht) (ap₂ (λ (x y : ℕ). x ∷ words_of n y) (omega arith) (omega arith))

moved : (b t d s : ℕ) → t + 2 ^ b * d + 2 ^ (b + 13) * s ≡ t + 2 ^ b * (d + 2 ^ 13 * s)
moved b t d s = grind (arith, ap (λ (k : ℕ). k * s) (pow-add b 13))

-- From any state of the loop whose bits end with a full word.
pub pack_loop-words :
    (blocks : List Block) (b t n : ℕ)
    → b < 64
    → t < 2 ^ b
    → All Fits13 blocks
    → b + 13 * length blocks ≡ 64 * n
    → pack_loop blocks b t ≡ map htonll (words_of n (t + 2 ^ b * stream blocks))
unfolding words_of stream pack_loop
pack_loop-words [] b t n hb ht fits e = let none : n ≡ 0 = omega arith in rw none refl
pack_loop-words (block ∷ []) b t zero hb ht fits e = absurd (omega arith)
pack_loop-words (block ∷ []) b t (suc n) hb ht fits e =
    let none : n ≡ 0 = omega arith in
    step_full block [] b t hb (omega arith) fits.0
    ∙ ap
        (λ (k : ℕ).
          htonll (bit_or t (u64 (block_data block * 2 ^ b)))
          ∷ map htonll (words_of k (block_data block / 2 ^ (64 - b) + 2 ^ (b + 13 - 64) * 0)))
        (sym none)
    ∙ ap (map htonll) (sym (full_word b t (block_data block) 0 n hb (omega arith) ht fits.0))
pack_loop-words (block ∷ more ∷ blocks) b t zero hb ht fits e = absurd (omega arith)
pack_loop-words (block ∷ more ∷ blocks) b t (suc n) hb ht fits e = elim (dec_lt (b + 13) 64) [
  | yes short ↦
      let (kept, small) = bits_short b t (block_data block) short ht fits.0 in
      step_short block more blocks b t short
      ∙ pack_loop-words (more ∷ blocks) (b + 13) (bit_or t (u64 (block_data block * 2 ^ b))) (suc n)
          short (rw kept small) fits.1 (omega arith)
      ∙ ap (λ (k : ℕ). map htonll (words_of (suc n) k))
          (rw kept (moved b t (block_data block) (stream (more ∷ blocks))))
  | no full ↦
      step_full block (more ∷ blocks) b t hb (omega arith) fits.0
      ∙ ap (λ (l : List ℕ). htonll (bit_or t (u64 (block_data block * 2 ^ b))) ∷ l)
          (pack_loop-words (more ∷ blocks) (b + 13 - 64) (block_data block / 2 ^ (64 - b)) n
            (omega arith)
            (high_lt (block_data block) (2 ^ (64 - b)) (2 ^ (b + 13 - 64))
              (halves b hb (omega arith)) (one-le-pow (64 - b) 2 (omega arith)) fits.0)
            fits.1 (omega arith))
      ∙ ap (map htonll) (
          sym (
            full_word b t (block_data block) (stream (more ∷ blocks)) n hb (omega arith) ht fits.0))
]
