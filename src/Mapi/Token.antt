-- ===== src/Mapi/Token.antt =====
-- mapi_generate_client_token of src/mapi/mapi.c.
use stronk.Base.{
  ℕ, zero, suc, ◌≡◌, ◌≤◌, refl, subst, arith, Bool, ◌&&◌, ◌||◌, leb, Bool-cases, inl, inr,
}
use stronk.Base.{if◌then◌else◌, Option, none, some, List, [], ◌∷◌, length, take}

-- `isalnum` in the C locale.
unfoldable pub isalnum : ℕ → Bool
isalnum c = (leb b'0' c && leb c b'9') || ((leb b'A' c && leb c b'Z') || (leb b'a' c && leb c b'z'))

abbrev pub cons_token : ℕ → Option (List ℕ) → Option (List ℕ)
cons_token c none = none
cons_token c (some rest) = some (c ∷ rest)

-- The loop, on the bytes that /dev/urandom delivers one by one; none where it delivers no more.
unfoldable pub mapi_generate_client_token : List ℕ → ℕ → Option (List ℕ)
unfolding isalnum
mapi_generate_client_token bytes zero = some []
mapi_generate_client_token [] (suc token_len) = none
mapi_generate_client_token (c ∷ bytes) (suc token_len) =
    let taken = mapi_generate_client_token bytes token_len in
    let passed = mapi_generate_client_token bytes (suc token_len) in
    if isalnum c then cons_token c taken else passed

-- The letters and digits among the bytes.
abbrev pub alphanumeric : List ℕ → List ℕ
alphanumeric [] = []
alphanumeric (c ∷ bytes) = let rest = alphanumeric bytes in if isalnum c then c ∷ rest else rest

-- The token is made, if the random bytes have enough letters and digits among them: it is the first
-- `token_len` of these.
pub mapi_generate_client_token_lem :
    (bytes : List ℕ) (token_len : ℕ)
    → token_len ≤ length (alphanumeric bytes)
    → mapi_generate_client_token bytes token_len ≡ some (take token_len (alphanumeric bytes))
unfolding mapi_generate_client_token
mapi_generate_client_token_lem bytes zero h = refl
mapi_generate_client_token_lem [] (suc n) h = absurd (omega arith)
mapi_generate_client_token_lem (c ∷ bytes) (suc n) h = elim (Bool-cases (isalnum c)) [
  | inl taken ↦
      let more : suc n ≤ length (c ∷ alphanumeric bytes) =
        subst (λ b. suc n ≤ length (if b then c ∷ alphanumeric bytes else alphanumeric bytes)) taken
          h in
      rw (taken, mapi_generate_client_token_lem bytes n (omega (arith, more))) refl
  | inr passed ↦
      let more : suc n ≤ length (alphanumeric bytes) =
        subst (λ b. suc n ≤ length (if b then c ∷ alphanumeric bytes else alphanumeric bytes))
          passed h in
      rw (passed, mapi_generate_client_token_lem bytes (suc n) more) refl
]
