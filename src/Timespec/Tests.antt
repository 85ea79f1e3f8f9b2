-- ===== src/Timespec/Tests.antt =====
-- Times of src/util.c.
use stronk.Base.{◌<◌, ◌≡◌, ◌↔◌, refl, arith}
use stronk.Timespec.{Timespec, Order, timespec_diff, timespec_addraw, timespec_cmp, ms_to_timespec}
use stronk.Timespec.Laws.{
  IsNormal, nanoseconds, nanoseconds-addraw, timespec_cmp_iff, nanoseconds-ms_to_timespec,
}

abbrev start_time : Timespec
start_time = record { tv_sec = 5; tv_nsec = 900000000 }

abbrev stop_time : Timespec
stop_time = record { tv_sec = 7; tv_nsec = 100000000 }

between : timespec_diff start_time stop_time ≡ record { tv_sec = 1; tv_nsec = 200000000 }
unfolding timespec_diff
between = refl

nanoseconds-addraw_example :
    (nanoseconds (timespec_addraw start_time 1 200000000) ≡ 7100000000)
    × IsNormal (timespec_addraw start_time 1 200000000)
nanoseconds-addraw_example = nanoseconds-addraw start_time 1 200000000 (omega arith) (omega arith)

timespec_cmp_iff_example :
    ((timespec_cmp start_time stop_time ≡ Order.later)
      ↔ (nanoseconds stop_time < nanoseconds start_time))
    × ((timespec_cmp start_time stop_time ≡ Order.same)
        ↔ (nanoseconds start_time ≡ nanoseconds stop_time))
    × ((timespec_cmp start_time stop_time ≡ Order.earlier)
        ↔ (nanoseconds start_time < nanoseconds stop_time))
timespec_cmp_iff_example =
    timespec_cmp_iff start_time stop_time (omega arith, omega arith) (omega arith, omega arith)
      (omega arith) (omega arith)

nanoseconds-ms_to_timespec_example :
    (nanoseconds (ms_to_timespec 1500) ≡ 1500000000) × IsNormal (ms_to_timespec 1500)
nanoseconds-ms_to_timespec_example = nanoseconds-ms_to_timespec 1500 (omega arith)
