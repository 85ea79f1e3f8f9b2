-- ===== src/Server.antt =====
-- src/server.c: the main loop with its clock, and the size of the thread pool.
pub mod Laws
mod Tests
use stronk.Base.{ℕ, zero, suc, ◌-◌, ◌^◌, Bool, true, false, ◌||◌, Option, none, some, ◌==◌, leb}
use stronk.Base.{if◌then◌else◌, ◌%◌, ◌>>=◌, Outcome, ok, fault, aborted}
use stronk.Timespec.{Timespec, Order, timespec_add, timespec_addraw, timespec_cmp, timespec_diff}

abbrev pub tick_duration_ns : ℕ
tick_duration_ns = 50000000

-- The end of `server_tick`: the internal clock.
unfoldable pub server_tick : Timespec → Timespec
unfolding timespec_add
server_tick internal_clock =
    timespec_add internal_clock (record { tv_sec = 0; tv_nsec = tick_duration_ns })

-- The internal clock, which is static and so starts at zero, behind `n` ticks.
unfoldable pub clock_after : ℕ → Timespec
unfolding server_tick
clock_after zero = record { tv_sec = 0; tv_nsec = 0 }
clock_after (suc n) = server_tick (clock_after n)

-- What one turn of the loop of `server_start` hands to `nanosleep`, from the times before and
-- behind its tick.
unfoldable pub sleep_time : Timespec → Timespec → Option Timespec
unfolding timespec_addraw timespec_cmp timespec_diff
sleep_time start stop =
    let should_stop_at = timespec_addraw start 0 tick_duration_ns in
    elim (timespec_cmp should_stop_at stop) [
      | Order.later ↦ some (timespec_diff stop should_stop_at)
      | _ ↦ none
    ]

-- `count_cores` on Linux, for the 64-bit pattern that `sysconf` gives: above INT_MAX it aborts.
unfoldable pub count_cores : ℕ → Outcome ℕ
count_cores num =
    if leb (2 ^ 31) num
    then if leb (2 ^ 63) num then ok (num % 2 ^ 32) else fault aborted
    else ok num

-- `cpu_core_count <= 0` on an int.
unfoldable pub planned_thread_count : ℕ → ℕ
planned_thread_count cpu_core_count =
    if cpu_core_count == 0 || leb (2 ^ 31) cpu_core_count then 4 else cpu_core_count

-- The number of threads that `init_thread_pooling` asks for.
unfoldable pub init_thread_pooling : ℕ → Outcome ℕ
unfolding count_cores planned_thread_count
init_thread_pooling num = count_cores num >>= λ cores. ok (planned_thread_count cores)
