-- ===== src/Uuid.antt =====
-- src/ninuuid/ninuuid.c: identifiers of sixteen bytes.
pub mod Laws
mod Tests
use stronk.Base.{ℕ, zero, suc, ◌+◌, ◌-◌, ◌*◌, ◌/◌, ◌%◌, ◌≤◌, Bool, true, false, ltb, ◌==◌, not}
use stronk.Base.{List, [], ◌∷◌, ◌++◌, map, length, get_or, take, bit_and, bit_or, if◌then◌else◌}
use stronk.Base.{◌≡◌, All, IsByte, ◌&&◌, ◌||◌, leb, Option, none, some, Outcome, ok, fault, aborted}

pub data Ccase : Type 0 where
  uppercase lowercase : Ccase

-- struct ninuuid: the array `bytes`, of length 16.
pub record Ninuuid : Type 0 where
  pub bytes : List ℕ

abbrev byte_at : Ninuuid → ℕ → ℕ
byte_at self i = get_or self.bytes i 0

-- ninuuid_load and ninuuid_unload: `for(int i = 0; i < 16; i++)`, from index `i` on.
unfoldable pub copy_loop : ℕ → ℕ → List ℕ → List ℕ
copy_loop zero i from = []
copy_loop (suc left) i from = get_or from i 0 ∷ copy_loop left (i + 1) from

unfoldable pub load : List ℕ → Ninuuid
unfolding copy_loop
load from = record { bytes = copy_loop 16 0 from }

unfoldable pub unload : Ninuuid → List ℕ
unfolding copy_loop
unload self = copy_loop 16 0 self.bytes

-- ninuuid_copy
unfoldable pub copy : Ninuuid → Ninuuid
unfolding copy_loop
copy from = record { bytes = copy_loop 16 0 from.bytes }

abbrev set_byte : List ℕ → ℕ → ℕ → List ℕ
set_byte [] i v = []
set_byte (x ∷ xs) zero v = v ∷ xs
set_byte (x ∷ xs) (suc i) v = x ∷ set_byte xs i v

-- ninuuid_generate: `random` is what `secure_random` stores, or nothing if that fails. The
-- return value false is `none`, and a version other than 4 calls `abort`.
unfoldable pub generate : Option (List ℕ) → ℕ → Outcome (Option Ninuuid)
unfolding copy
generate random version =
    if version == 4
    then elim random [
      | none ↦ ok none
      | some tmp ↦ ok (
          some (
            copy (record { bytes = set_byte tmp 8 (bit_or (bit_and (get_or tmp 8 0) 0x0F) 0x10) })))
    ]
    else fault aborted

equals_loop : ℕ → ℕ → Ninuuid → Ninuuid → Bool
equals_loop zero i first second = true
equals_loop (suc left) i first second =
    let rest = equals_loop left (i + 1) first second in
    if not (byte_at first i == byte_at second i) then false else rest

unfoldable pub equals : Ninuuid → Ninuuid → Bool
unfolding equals_loop
equals first second = equals_loop 16 0 first second

is_null_loop : ℕ → ℕ → Ninuuid → Bool
is_null_loop zero i self = true
is_null_loop (suc left) i self =
    let rest = is_null_loop left (i + 1) self in if not (byte_at self i == 0) then false else rest

unfoldable pub is_null : Ninuuid → Bool
unfolding is_null_loop
is_null self = is_null_loop 16 0 self

unfoldable pub get_version : Ninuuid → ℕ
get_version uuid = bit_and (byte_at uuid 6) 0xF0

-- `%hhX`: capital digits, without leading zeros.
abbrev pub hex_digit : ℕ → ℕ
hex_digit d = if ltb d 10 then b'0' + d else b'A' + (d - 10)

abbrev pub print_hhx : ℕ → List ℕ
print_hhx b = if ltb b 16 then hex_digit b ∷ [] else hex_digit (b / 16) ∷ hex_digit (b % 16) ∷ []

-- The format strings: a dash stands behind bytes 3, 5, 7 and 9 unless `compressed`.
dash_at : Bool → ℕ → List ℕ
dash_at compressed i =
    if not compressed && (i == 3 || i == 5 || i == 7 || i == 9) then b'-' ∷ [] else []

print_from : Bool → ℕ → List ℕ → List ℕ
print_from compressed i [] = []
print_from compressed i (b ∷ bs) =
    print_hhx b ++ (dash_at compressed i ++ print_from compressed (i + 1) bs)

-- `toupper`
abbrev toupper : ℕ → ℕ
toupper c = if leb b'a' c && leb c b'z' then c - 32 else c

-- `if(out[i] != '-') out[i] = toupper(out[i]);` for the first 35 characters.
upper_loop : ℕ → List ℕ → List ℕ
upper_loop zero out = out
upper_loop (suc left) [] = []
upper_loop (suc left) (c ∷ cs) = (if not (c == b'-') then toupper c else c) ∷ upper_loop left cs

unfoldable pub to_string : Ninuuid → Ccase → Bool → List ℕ
unfolding print_from dash_at upper_loop
to_string self Ccase.uppercase compressed =
    upper_loop 35 (print_from compressed 0 (take 16 self.bytes))
to_string self Ccase.lowercase compressed = print_from compressed 0 (take 16 self.bytes)
