-- ===== src/Base/Return.antt =====
-- What a C function does: it returns a value, it reports an error by its return value (with the
-- reason that it hands to `ninerr_set_err`, or `no_reason` where it hands none), or it does what C gives no meaning to.
use mathlib.Core.Path.{◌≡◌, refl}
use mathlib.Core.Bool.{Bool, true, false}

-- The reason of an error return.
pub data Error : Type 0 where
  varint_too_long max_len_exceeded bad_string_length arithmetic : Error
  invalid_packet_id packet_too_short invalid_next_state : Error
  bad_secret_length bad_token_length : Error
  not_implemented : Error
  no_reason : Error

-- A fault is not a result of the program: memory is read or written outside its bounds, a shift has
-- a count that is not below the width, a variable is read before it is set, freed memory is used, a
-- null pointer is read, a number is divided by zero, a stream is closed while it is being closed, or
-- `abort` is called. So is a call of `exit` in the midst of serving.
pub data Fault : Type 0 where
  over_read over_write bad_shift uninitialised use_after_free closed_twice aborted : Fault
  null_read zero_divide exited : Fault

pub data Outcome {ℓ} (A : Type ℓ) : Type ℓ where
  ok : A → Outcome A
  err : Error → Outcome A
  fault : Fault → Outcome A

-- The rest of a function goes on from a value; an error return and a fault end it.
infixl 5 ◌>>=◌ ◌>>◌
abbrev pub ◌>>=◌ {ℓ κ} : {X : Type ℓ} {Y : Type κ} → Outcome X → (X → Outcome Y) → Outcome Y
fault x >>= rest = fault x
err e >>= rest = err e
ok value >>= rest = rest value

-- An early error return.
abbrev pub guard : Bool → Error → Outcome (Unit {0})
guard false e = err e
guard true e = ok tt

abbrev pub ◌>>◌ {ℓ} : {Y : Type ℓ} → Outcome (Unit {0}) → Outcome Y → Outcome Y
tested >> rest = tested >>= λ _. rest

-- A bind that returned: what its first part returned, and the rest from there.
pub >>=-eq-ok {ℓ κ} :
    {X : Type ℓ} {Y : Type κ} (first : Outcome X) (rest : X → Outcome Y) {y : Y}
    → (first >>= rest) ≡ ok y
    → (x : X) × (first ≡ ok x) × (rest x ≡ ok y)
>>=-eq-ok (fault _) rest e = cc
>>=-eq-ok (err _) rest e = cc
>>=-eq-ok (ok x) rest e = (x, refl, e)
