-- ===== src/Server/Tests.antt =====
-- src/server.c at fixed times, and with fixed numbers of cores.
use stronk.Base.{
  ℕ, ◌+◌, ◌*◌, ◌-◌, ◌^◌, ◌≤◌, ◌≡◌, ◌↔◌, refl, arith, List, [], ◌∷◌, length, none, some, ok,
}
use stronk.Timespec.{Timespec}
use stronk.Timespec.Laws.{IsNormal, nanoseconds}
use stronk.Network.Batches.{serve_clients, concat}
use stronk.Server.{clock_after, sleep_time, init_thread_pooling}
use stronk.Server.Laws.{
  nanoseconds-clock_after, sleep_time_fills, init_thread_pooling-serve_clients,
}

nanoseconds-clock_after_example :
    (nanoseconds (clock_after 41) ≡ 41 * 50000000)
    × IsNormal (clock_after 41)
    × ((clock_after 41).tv_sec ≤ 41)
nanoseconds-clock_after_example = nanoseconds-clock_after 41 (omega arith)

abbrev before : Timespec
before = record { tv_sec = 8; tv_nsec = 990000000 }

-- Twenty milliseconds later.
abbrev behind : Timespec
behind = record { tv_sec = 9; tv_nsec = 10000000 }

sleep_time_fills_example :
    ((d : Timespec)
      → sleep_time before behind ≡ some d
      → nanoseconds behind + nanoseconds d ≡ nanoseconds before + 50000000)
    × ((sleep_time before behind ≡ none) ↔ (nanoseconds before + 50000000 ≤ nanoseconds behind))
sleep_time_fills_example =
    sleep_time_fills before behind (omega arith, omega arith) (omega arith, omega arith)
      (omega arith) (omega arith) (omega arith)

abbrev three : List ℕ
three = 10 ∷ 20 ∷ 30 ∷ []

-- `sysconf` fails: there are four threads.
init_thread_pooling-serve_clients_example :
    (batches : List (List ℕ)) × (serve_clients 4 (length three) three ≡ ok batches)
    × (concat batches ≡ three)
unfolding init_thread_pooling
init_thread_pooling-serve_clients_example =
    init_thread_pooling-serve_clients (2 ^ 64 - 1) 4 three (omega arith) refl
