-- ===== src/Timespec/Laws.antt =====
-- Sums, differences and the order of the times of src/util.c.
use stronk.Base.{ℕ, ◌+◌, ◌*◌, ◌^◌, ◌<◌, ◌≡◌, ◌↔◌, arith}
use stronk.Timespec.{Timespec, Order, timespec_addraw, timespec_cmp, ms_to_timespec, carry}

-- Less than a second of nanoseconds, and any number of seconds.
abbrev pub IsNormal : Timespec → Type 0
IsNormal t = (t.tv_sec < 2 ^ 64) × (t.tv_nsec < 1000000000)

abbrev pub nanoseconds : Timespec → ℕ
nanoseconds t = t.tv_sec * 1000000000 + t.tv_nsec

-- A sum of nonnegative times counts the nanoseconds of both, and those of a raw addition; it is
-- normal if less than two seconds of nanoseconds are added up.
pub nanoseconds-addraw :
    (t : Timespec) (sec nsec : ℕ)
    → t.tv_sec + sec + 1 < 2 ^ 63
    → t.tv_nsec + nsec < 2000000000
    → (nanoseconds (timespec_addraw t sec nsec) ≡ nanoseconds t + (sec * 1000000000 + nsec))
      × IsNormal (timespec_addraw t sec nsec)
unfolding timespec_addraw carry
nanoseconds-addraw t sec nsec hs hn = ground arith

-- The comparison of normal times that are not negative is that of their nanoseconds.
pub timespec_cmp_iff :
    (t1 t2 : Timespec)
    → IsNormal t1
    → IsNormal t2
    → t1.tv_sec < 2 ^ 63
    → t2.tv_sec < 2 ^ 63
    → ((timespec_cmp t1 t2 ≡ Order.later) ↔ (nanoseconds t2 < nanoseconds t1))
      × ((timespec_cmp t1 t2 ≡ Order.same) ↔ (nanoseconds t1 ≡ nanoseconds t2))
      × ((timespec_cmp t1 t2 ≡ Order.earlier) ↔ (nanoseconds t1 < nanoseconds t2))
unfolding timespec_cmp
timespec_cmp_iff t1 t2 h1 h2 s1 s2 = (
  ((λ e. ground arith), λ e. ground arith),
  ((λ e. ground arith), λ e. ground arith),
  ((λ e. ground arith), λ e. ground arith),
)

-- A time from milliseconds is normal and has a million nanoseconds for each.
pub nanoseconds-ms_to_timespec :
    (ms : ℕ)
    → ms < 2 ^ 64
    → (nanoseconds (ms_to_timespec ms) ≡ ms * 1000000) × IsNormal (ms_to_timespec ms)
unfolding ms_to_timespec
nanoseconds-ms_to_timespec ms h = ground arith
