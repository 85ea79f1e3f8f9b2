-- ===== src/Timespec.antt =====
-- The arithmetic on struct timespec in src/util.c. The members are bit patterns of 64-bit signed
-- integers; a sum or difference that does not fit wraps round.
pub mod Laws
mod Tests
use stronk.Base.{ℕ, ◌+◌, ◌-◌, ◌*◌, ◌/◌, ◌%◌, ◌^◌, Bool, true, false, ◌&&◌, ◌||◌, ltb, leb, ◌==◌}
use stronk.Base.{if◌then◌else◌, u64}

pub record Timespec : Type 0 where
  pub tv_sec : ℕ
  pub tv_nsec : ℕ

abbrev pub add64 : ℕ → ℕ → ℕ
add64 a b = u64 (a + b)

abbrev pub sub64 : ℕ → ℕ → ℕ
sub64 a b = (a + 2 ^ 64 - b) % 2 ^ 64

-- `a < b` on the signed values.
abbrev pub lt64 : ℕ → ℕ → Bool
lt64 a b = ltb (add64 a (2 ^ 63)) (add64 b (2 ^ 63))

unfoldable pub timespec_diff : Timespec → Timespec → Timespec
timespec_diff start stop =
    if lt64 (sub64 stop.tv_nsec start.tv_nsec) 0
    then record {
      tv_sec = sub64 (sub64 stop.tv_sec start.tv_sec) 1;
      tv_nsec = add64 (sub64 stop.tv_nsec start.tv_nsec) 1000000000;
    }
    else record {
      tv_sec = sub64 stop.tv_sec start.tv_sec;
      tv_nsec = sub64 stop.tv_nsec start.tv_nsec;
    }

-- The carry of both additions.
unfoldable pub carry : ℕ → ℕ → Timespec
carry sec nsec =
    if lt64 nsec 1000000000
    then record { tv_sec = sec; tv_nsec = nsec }
    else record { tv_sec = add64 sec 1; tv_nsec = sub64 nsec 1000000000 }

unfoldable pub timespec_add : Timespec → Timespec → Timespec
unfolding carry
timespec_add t1 t2 = carry (add64 t2.tv_sec t1.tv_sec) (add64 t2.tv_nsec t1.tv_nsec)

unfoldable pub timespec_addraw : Timespec → ℕ → ℕ → Timespec
unfolding carry
timespec_addraw t sec nsec = carry (add64 sec t.tv_sec) (add64 nsec t.tv_nsec)

-- The results 1, 0 and -1.
pub data Order : Type 0 where
  later same earlier : Order

unfoldable pub timespec_cmp : Timespec → Timespec → Order
timespec_cmp t1 t2 =
    if lt64 t2.tv_sec t1.tv_sec || (t1.tv_sec == t2.tv_sec && lt64 t2.tv_nsec t1.tv_nsec)
    then Order.later
    else if t1.tv_sec == t2.tv_sec && t1.tv_nsec == t2.tv_nsec
    then Order.same
    else Order.earlier

-- An unsigned long long of milliseconds.
unfoldable pub ms_to_timespec : ℕ → Timespec
ms_to_timespec ms = record { tv_sec = ms / 1000; tv_nsec = u64 (ms % 1000 * 1000000) }
