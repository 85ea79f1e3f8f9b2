-- ===== src/Packet/Cursor.antt =====
-- The variables `ptr` and `len_left` of mcpr_decode_packet in src/mcpr/packet.c, and the ways in
-- which that function returns.
use stronk.Base.{ℕ, ◌+◌, ◌-◌, ◌%◌, ◌^◌, Bool, true, false, List, drop, leb}
use stronk.Base.{Outcome, Error, Fault, packet_too_short}

-- What may be read from `ptr` on, `len_left`, and `ptr - in`.
pub record Cursor : Type 0 where
  pub mem : List ℕ
  pub len_left : ℕ
  pub pos : ℕ

-- `size_t` subtraction wraps.
abbrev pub sub_size : ℕ → ℕ → ℕ
sub_size a b = (a + 2 ^ 64 - b) % 2 ^ 64

-- `ptr += n; len_left -= n;`
unfoldable pub advance : Cursor → ℕ → Cursor
advance c n = record { mem = drop n c.mem; len_left = sub_size c.len_left n; pos = c.pos + n }

-- A return of mcpr_decode_packet: a value of its own on success; -1, with or without
-- `free(pkt)` before it; or `return false`, which is the return value 0, after `free(pkt)`.
pub data Decoded {ℓ} (A : Type ℓ) : Type ℓ where
  done : A → Decoded A
  rejected : Error → (freed : Bool) → Decoded A
  zero_after_free : Error → Decoded A
  fault : Fault → Decoded A

infixl 5 ◌>>=◌ ◌>>◌
abbrev pub ◌>>=◌ {ℓ κ} : {A : Type ℓ} {B : Type κ} → Decoded A → (A → Decoded B) → Decoded B
done a >>= f = f a
rejected e b >>= f = rejected e b
zero_after_free e >>= f = zero_after_free e
fault x >>= f = fault x

abbrev pub ◌>>◌ {ℓ} : {B : Type ℓ} → Decoded (Unit {0}) → Decoded B → Decoded B
m >> k = m >>= λ _. k

-- `if(result < 0) { free(pkt); return -1; }` behind a call of the codec.
abbrev pub or_free {ℓ} : {A : Type ℓ} → Outcome A → Decoded A
or_free (Outcome.ok a) = done a
or_free (Outcome.err e) = rejected e true
or_free (Outcome.fault x) = fault x

-- `if(!cond) { free(pkt); return -1; }`
abbrev pub check : Bool → Error → Decoded (Unit {0})
check true e = done tt
check false e = rejected e true

-- `if(len_left < n) { free(pkt); ... return -1; }`
abbrev pub need : Cursor → ℕ → Decoded (Unit {0})
need c n = check (leb n c.len_left) packet_too_short
