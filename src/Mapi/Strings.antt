-- ===== src/Mapi/Strings.antt =====
-- mapi_uuid_decompress_string and mapi_uuid_compress_string of src/mapi/mapi.c.
use stronk.Base.{
  ℕ, zero, suc, ◌+◌, ◌≡◌, ◌≤◌, ◌∙◌, split_at, refl, ap, sym, arith, List, [], ◌∷◌, ◌++◌, length,
  take, drop, length-drop,
}
use stronk.Base.{length-take, take-all}

-- `n` bytes from `at` on, copied one by one.
abbrev slice : ℕ → ℕ → List ℕ → List ℕ
slice at n input = take n (drop at input)

abbrev hyphen : List ℕ
hyphen = b'-' ∷ []

-- The output without its NUL, as in both functions.
unfoldable pub mapi_uuid_decompress_string : List ℕ → List ℕ
mapi_uuid_decompress_string input =
    slice 0 8 input
    ++ (hyphen
        ++ (slice 8 4 input
            ++ (hyphen
                ++ (slice 12 4 input
                    ++ (hyphen ++ (slice 16 4 input ++ (hyphen ++ slice 20 12 input)))))))

unfoldable pub mapi_uuid_compress_string : List ℕ → List ℕ
mapi_uuid_compress_string input =
    slice 0 8 input
    ++ (slice 9 4 input ++ (slice 14 4 input ++ (slice 19 4 input ++ slice 24 12 input)))

take-front : (n : ℕ) (a b : List ℕ) → length a ≡ n → take n (a ++ b) ≡ a
take-front zero [] b h = refl
take-front zero (x ∷ a) b h = absurd (omega arith)
take-front (suc n) [] b h = absurd (omega arith)
take-front (suc n) (x ∷ a) b h = ap (λ l. x ∷ l) (take-front n a b (omega arith))

pub drop-front : (n m : ℕ) (a b : List ℕ) → length a ≡ n → drop (n + m) (a ++ b) ≡ drop m b
drop-front zero m [] b h = let e : 0 + m ≡ m = omega arith in rw e refl
drop-front zero m (x ∷ a) b h = absurd (omega arith)
drop-front (suc n) m [] b h = absurd (omega arith)
drop-front (suc n) m (x ∷ a) b h =
    let e : suc n + m ≡ suc (n + m) = omega arith in rw e (drop-front n m a b (omega arith))

-- Text of five parts, with hyphens between them.
parted : (a b c d e : List ℕ) → List ℕ
parted a b c d e = a ++ (hyphen ++ (b ++ (hyphen ++ (c ++ (hyphen ++ (d ++ (hyphen ++ e)))))))

module _ (a b c d e : List ℕ) (la : length a ≡ 8) (lb : length b ≡ 4) (lc : length c ≡ 4)
    (ld : length d ≡ 4) (le : length e ≡ 12) where
  compress_parted : mapi_uuid_compress_string (parted a b c d e) ≡ a ++ (b ++ (c ++ (d ++ e)))
  unfolding mapi_uuid_compress_string parted
  compress_parted =
      let r4 = hyphen ++ e in
      let r3 = hyphen ++ (d ++ r4) in
      let r2 = hyphen ++ (c ++ r3) in
      let r1 = hyphen ++ (b ++ r2) in
      let at9 : drop 9 (a ++ r1) ≡ b ++ r2 = drop-front 8 1 a r1 la in
      let at14 : drop 14 (a ++ r1) ≡ c ++ r3 = drop-front 8 6 a r1 la ∙ drop-front 4 1 b r2 lb in
      let at19 : drop 19 (a ++ r1) ≡ d ++ r4 =
        drop-front 8 11 a r1 la ∙ drop-front 4 6 b r2 lb ∙ drop-front 4 1 c r3 lc in
      let at24 : drop 24 (a ++ r1) ≡ e =
        drop-front 8 16 a r1 la
        ∙ drop-front 4 11 b r2 lb
        ∙ drop-front 4 6 c r3 lc
        ∙ drop-front 4 1 d r4 ld in
      rw
        (
          take-front 8 a r1 la,
          at9,
          at14,
          at19,
          at24,
          take-front 4 b r2 lb,
          take-front 4 c r3 lc,
          take-front 4 d r4 ld,
          take-all 12 e le,
        )
        refl

length-slice : (at n : ℕ) (l : List ℕ) → at + n ≤ length l → length (slice at n l) ≡ n
length-slice at n l h = omega (arith, length-take n (drop at l), length-drop at l)

-- An identifier without hyphens comes back from the text with hyphens.
pub compress-decompress_string :
    (input : List ℕ)
    → length input ≡ 32
    → mapi_uuid_compress_string (mapi_uuid_decompress_string input) ≡ input
unfolding mapi_uuid_decompress_string parted
compress-decompress_string input h =
    let last : drop 20 input ≡ slice 20 12 input =
      sym (take-all 12 (drop 20 input) (omega (arith, length-drop 20 input))) in
    compress_parted (slice 0 8 input) (slice 8 4 input) (slice 12 4 input) (slice 16 4 input)
      (slice 20 12 input) (length-slice 0 8 input (omega arith))
      (length-slice 8 4 input (omega arith)) (length-slice 12 4 input (omega arith))
      (length-slice 16 4 input (omega arith)) (length-slice 20 12 input (omega arith))
    ∙ rw⁻¹ last
        (rw (split_at 16 4 input, split_at 12 4 input, split_at 8 4 input, split_at 0 8 input) refl)
