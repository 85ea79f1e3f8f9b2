-- ===== src/Uuid/Laws.antt =====
-- What the operations on identifiers promise.
use stronk.Base.{
  ℕ, zero, suc, ◌+◌, ◌*◌, ◌/◌, ◌%◌, ◌≤◌, ◌<◌, ◌≡◌, ◌≢◌, ◌↔◌, refl, ap, sym, ◌∙◌, arith,
}
use stronk.Base.{Bool, true, false, List, [], ◌∷◌, ◌++◌, length, length-append}
use stronk.Base.{
  get_or, take, drop, drop-step, take-all, replicate, All, All-append, IsByte, bit_and, bit_or,
  some, ok, fault, aborted,
}
use stronk.Base.{and_digit, ◌==◌, ltb, if◌then◌else◌, bit_and_low_mask, bit_or_low_high}
use stronk.Uuid.{Ninuuid, Ccase, copy_loop, load, unload, copy, equals, equals_loop, generate}
use stronk.Uuid.{
  is_null, is_null_loop, get_version, to_string, print_from, dash_at, upper_loop, print_hhx,
}
use stronk.Uuid.{set_byte}

abbrev pub IsValid : Ninuuid → Type 0
IsValid u = length u.bytes ≡ 16

copy_loop-take :
    (left i : ℕ) (xs : List ℕ) → i + left ≤ length xs → copy_loop left i xs ≡ take left (drop i xs)
unfolding copy_loop
copy_loop-take zero i xs h = refl
copy_loop-take (suc left) i xs h =
    rw (drop-step i xs 0 (omega arith))
      (ap (λ l. get_or xs i 0 ∷ l) (copy_loop-take left (i + 1) xs (omega arith)))

copy_16 : (xs : List ℕ) → length xs ≡ 16 → copy_loop 16 0 xs ≡ xs
copy_16 xs h = copy_loop-take 16 0 xs (omega arith) ∙ take-all 16 xs h

-- Loading, unloading and copying sixteen bytes changes none of them.
pub unload-load-copy :
    (xs : List ℕ)
    → length xs ≡ 16
    → (unload (load xs) ≡ xs) × ((copy (load xs)).bytes ≡ xs) × IsValid (load xs)
unfolding unload load copy
unload-load-copy xs h =
    let e = copy_16 xs h in (ap (copy_loop 16 0) e ∙ e, ap (copy_loop 16 0) e ∙ e, ap length e ∙ h)

equals_loop-take :
    (left i : ℕ) (a b : Ninuuid)
    → i + left ≤ length a.bytes
    → i + left ≤ length b.bytes
    → (equals_loop left i a b ≡ true) ↔ (take left (drop i a.bytes) ≡ take left (drop i b.bytes))
unfolding equals_loop
equals_loop-take zero i a b ha hb = ((λ e. refl), λ e. refl)
equals_loop-take (suc left) i a b ha hb =
    let (to, from) = equals_loop-take left (i + 1) a b (omega arith) (omega arith) in
    rw (drop-step i a.bytes 0 (omega arith), drop-step i b.bytes 0 (omega arith))
      ((λ e. ground (arith, to)), λ e. ground (arith, from))

-- Two identifiers are reported equal exactly when they are.
pub equals_iff : (a b : Ninuuid) → IsValid a → IsValid b → (equals a b ≡ true) ↔ (a ≡ b)
unfolding equals
equals_iff a b ha hb =
    let (to, from) = equals_loop-take 16 0 a b (omega arith) (omega arith) in
    (
      (λ e.
          ap (λ l. record { bytes = l })
            (sym (take-all 16 a.bytes ha) ∙ to e ∙ take-all 16 b.bytes hb)),
      λ e. from (ap (λ u. take 16 u.bytes) e),
    )

is_null_loop-take :
    (left i : ℕ) (a : Ninuuid)
    → i + left ≤ length a.bytes
    → (is_null_loop left i a ≡ true) ↔ (take left (drop i a.bytes) ≡ replicate left 0)
unfolding is_null_loop
is_null_loop-take zero i a h = ((λ e. refl), λ e. refl)
is_null_loop-take (suc left) i a h =
    let (to, from) = is_null_loop-take left (i + 1) a (omega arith) in
    rw (drop-step i a.bytes 0 (omega arith)) ((λ e. ground (arith, to)), λ e. ground (arith, from))

-- An identifier is reported null exactly when its sixteen bytes are zero.
pub is_null_iff : (a : Ninuuid) → IsValid a → (is_null a ≡ true) ↔ (a.bytes ≡ replicate 16 0)
unfolding is_null
is_null_iff a h =
    let (to, from) = is_null_loop-take 16 0 a (omega arith) in
    ((λ e. sym (take-all 16 a.bytes h) ∙ to e), λ e. from (take-all 16 a.bytes h ∙ e))

get_or-set_byte : (xs : List ℕ) (i j v : ℕ) → i ≢ j → get_or (set_byte xs i v) j 0 ≡ get_or xs j 0
get_or-set_byte [] i j v ne = refl
get_or-set_byte (x ∷ xs) zero zero v ne = absurd (ne refl)
get_or-set_byte (x ∷ xs) zero (suc j) v ne = refl
get_or-set_byte (x ∷ xs) (suc i) zero v ne = refl
get_or-set_byte (x ∷ xs) (suc i) (suc j) v ne = get_or-set_byte xs i j v (λ e. ne (ap suc e))

length-set_byte : (xs : List ℕ) (i v : ℕ) → length (set_byte xs i v) ≡ length xs
length-set_byte [] i v = refl
length-set_byte (x ∷ xs) zero v = refl
length-set_byte (x ∷ xs) (suc i) v = ap suc (length-set_byte xs i v)

-- A generated identifier is the sixteen random bytes with the high half of byte 8 set to 1: byte
-- 6, which holds the version, stays random. A version other than 4 calls `abort`.
pub generate_lem :
    (random : List ℕ) (version : ℕ)
    → length random ≡ 16
    → generate (some random) version ≡ (
        if version == 4
        then ok (some (record { bytes = set_byte random 8 (get_or random 8 0 % 16 + 16) }))
        else fault aborted)
unfolding generate copy
generate_lem random version h =
    let v = get_or random 8 0 in
    let masked : bit_or (bit_and v 0x0F) 0x10 ≡ v % 16 + 16 =
      omega (arith, bit_and_low_mask 4 v, bit_or_low_high 4 (bit_and v 0x0F) 1) in
    let copied = copy_16 (set_byte random 8 (v % 16 + 16)) (length-set_byte random 8 _ ∙ h) in
    ground (arith, masked, copied)

-- The version that is read off is a multiple of 16, so it is never 4, whatever the identifier:
-- the masked bits are not shifted down.
pub get_version_never :
    (u : Ninuuid) (version : ℕ) → 0 < version → version < 16 → get_version u ≢ version
unfolding get_version
get_version_never u version lo hi e =
    let b = get_or u.bytes 6 0 in
    omega (
      arith,
      and_digit b 240,
      and_digit (b / 2) 120,
      and_digit (b / 2 / 2) 60,
      and_digit (b / 2 / 2 / 2) 30,
    )

-- How many of the bytes print as a single digit.
abbrev pub short_bytes : List ℕ → ℕ
short_bytes [] = 0
short_bytes (b ∷ bs) = (if ltb b 16 then 1 else 0) + short_bytes bs

-- How many dashes stand behind the `n` bytes from byte `i` on.
dashes : Bool → ℕ → ℕ → ℕ
dashes compressed i zero = 0
dashes compressed i (suc n) = length (dash_at compressed i) + dashes compressed (i + 1) n

length-print_hhx : (b : ℕ) → length (print_hhx b) + (if ltb b 16 then 1 else 0) ≡ 2
length-print_hhx b = ground arith

length-cons :
    (c : Bool) (i b : ℕ) (bs : List ℕ)
    → length (print_from c i (b ∷ bs))
      ≡ length (print_hhx b) + (length (dash_at c i) + length (print_from c (i + 1) bs))
unfolding print_from
length-cons c i b bs =
    let rest = print_from c (i + 1) bs in
    length-append (print_hhx b) (dash_at c i ++ rest)
    ∙ ap (λ n. length (print_hhx b) + n) (length-append (dash_at c i) rest)

length-print_from :
    (c : Bool) (i : ℕ) (bs : List ℕ)
    → length (print_from c i bs) + short_bytes bs ≡ 2 * length bs + dashes c i (length bs)
unfolding dashes
length-print_from c i [] = unfold print_from in refl
length-print_from c i (b ∷ bs) =
    omega (arith, length-cons c i b bs, length-print_hhx b, length-print_from c (i + 1) bs)

dash_at-capital : (c : Bool) (i : ℕ) → All (λ x. x < b'a') (dash_at c i)
unfolding dash_at
dash_at-capital c i = ground arith

print_from-capital :
    (c : Bool) (i : ℕ) (bs : List ℕ) → All IsByte bs → All (λ x. x < b'a') (print_from c i bs)
unfolding print_from
print_from-capital c i [] h = tt
print_from-capital c i (b ∷ bs) h =
    All-append (λ x. x < b'a') (print_hhx b) (dash_at c i ++ print_from c (i + 1) bs) (ground arith)
      (All-append (λ x. x < b'a') (dash_at c i) (print_from c (i + 1) bs) (dash_at-capital c i)
        (print_from-capital c (i + 1) bs h.1))

upper_loop-same : (n : ℕ) (out : List ℕ) → All (λ c. c < b'a') out → upper_loop n out ≡ out
unfolding upper_loop
upper_loop-same zero out h = refl
upper_loop-same (suc n) [] h = refl
upper_loop-same (suc n) (c ∷ cs) h = ground (arith, upper_loop-same n cs h.1)

dashes_16 : (c : Bool) → dashes c 0 16 ≡ (if c then 0 else 4)
unfolding dashes dash_at
dashes_16 true = refl
dashes_16 false = refl

any_case :
    (u : Ninuuid) (compressed : Bool) (ccase : Ccase) {out : List ℕ}
    → to_string u Ccase.lowercase compressed ≡ out
    → to_string u Ccase.uppercase compressed ≡ out
    → to_string u ccase compressed ≡ out
any_case u compressed Ccase.lowercase low up = low
any_case u compressed Ccase.uppercase low up = up

-- The text has 32 characters, and 4 more for the dashes, less one for each byte below 16, since
-- a byte prints without its leading zero. The case asked for makes no difference: the digits
-- are capitals either way.
pub length-to_string :
    (u : Ninuuid) (ccase : Ccase) (compressed : Bool)
    → IsValid u
    → All IsByte u.bytes
    → (length (to_string u ccase compressed) + short_bytes u.bytes
        ≡ 32 + (if compressed then 0 else 4))
      × (to_string u ccase compressed ≡ to_string u Ccase.lowercase compressed)
unfolding to_string
length-to_string u ccase compressed h bytes =
    let all = take-all 16 u.bytes h in
    let lower : to_string u Ccase.lowercase compressed ≡ print_from compressed 0 u.bytes =
      ap (print_from compressed 0) all in
    let upper : to_string u Ccase.uppercase compressed ≡ print_from compressed 0 u.bytes =
      ap (λ l. upper_loop 35 (print_from compressed 0 l)) all
      ∙ upper_loop-same 35 _ (print_from-capital compressed 0 u.bytes bytes) in
    let same = any_case u compressed ccase lower upper in
    (
      omega (
        arith,
        ap length same,
        length-print_from compressed 0 u.bytes,
        ap (λ n. dashes compressed 0 n) h,
        dashes_16 compressed,
      ),
      same ∙ sym lower,
    )
