-- ===== src/Server/Laws.antt =====
-- The clock, the pace and the threads of src/server.c.
use stronk.Base.{ℕ, zero, suc, ◌+◌, ◌*◌, ◌^◌, ◌≤◌, ◌<◌, ◌≡◌, ◌↔◌, refl}
use stronk.Base.{arith, Option, none, some, List, length, ok, subst, >>=-eq-ok}
use stronk.Timespec.{
  Timespec, Order, timespec_add, timespec_addraw, timespec_cmp, timespec_diff, carry,
}
use stronk.Timespec.Laws.{IsNormal, nanoseconds, nanoseconds-addraw, timespec_cmp_iff}
use stronk.Network.Batches.{serve_clients, serve_clients-concat, concat}
use stronk.Server.{server_tick, clock_after, sleep_time, init_thread_pooling}
use stronk.Server.{count_cores, planned_thread_count}

server_tick_lem :
    (t : Timespec)
    → IsNormal t
    → t.tv_sec + 1 < 2 ^ 63
    → (nanoseconds (server_tick t) ≡ nanoseconds t + 50000000)
      × IsNormal (server_tick t)
      × ((server_tick t).tv_sec ≤ t.tv_sec + 1)
unfolding server_tick timespec_add carry
server_tick_lem t h small = ground arith

-- Behind n ticks the internal clock is normal, and shows n times fifty milliseconds.
pub nanoseconds-clock_after :
    (n : ℕ)
    → n < 2 ^ 62
    → (nanoseconds (clock_after n) ≡ n * 50000000)
      × IsNormal (clock_after n)
      × ((clock_after n).tv_sec ≤ n)
unfolding clock_after
nanoseconds-clock_after zero h = (refl, (omega arith, omega arith), omega arith)
nanoseconds-clock_after (suc n) h =
    let before = nanoseconds-clock_after n (omega arith) in
    let (exact, normal, sec) = server_tick_lem (clock_after n) before.1 (omega (arith, before.2)) in
    (omega (arith, before.0), normal, omega (arith, before.2))

nanoseconds-diff :
    (start stop : Timespec)
    → IsNormal start
    → IsNormal stop
    → start.tv_sec < 2 ^ 63
    → stop.tv_sec < 2 ^ 63
    → nanoseconds start ≤ nanoseconds stop
    → nanoseconds start + nanoseconds (timespec_diff start stop) ≡ nanoseconds stop
unfolding timespec_diff
nanoseconds-diff start stop hs ht ss st le = ground arith

abbrev Fills : Timespec → Timespec → Option Timespec → Type 0
Fills start stop o =
    ((d : Timespec) → o ≡ some d → nanoseconds stop + nanoseconds d ≡ nanoseconds start + 50000000)
    × ((o ≡ none) ↔ (nanoseconds start + 50000000 ≤ nanoseconds stop))

Fills-some :
    (start stop d : Timespec)
    → nanoseconds stop + nanoseconds d ≡ nanoseconds start + 50000000
    → nanoseconds stop < nanoseconds start + 50000000
    → Fills start stop (some d)
Fills-some start stop d e early = (
  λ d' same.
      let is : d ≡ d' = cc in
      subst (λ x. nanoseconds stop + nanoseconds x ≡ nanoseconds start + 50000000) is e,
  (λ bad. absurd (some_ne_none bad), λ slow. absurd (omega arith)),
)
  where
    some_ne_none : some d ≡ none → ⊥
    some_ne_none bad = cc

Fills-none :
    (start stop : Timespec)
    → nanoseconds start + 50000000 ≤ nanoseconds stop
    → Fills start stop none
Fills-none start stop slow = (λ d bad. absurd (none_ne_some d bad), (λ _. slow, λ _. refl))
  where
    none_ne_some : (d : Timespec) → none ≡ some d → ⊥
    none_ne_some d bad = cc

-- A turn of the main loop that sleeps takes fifty milliseconds with its sleep; it does not sleep
-- exactly if its tick took fifty milliseconds or more.
pub sleep_time_fills :
    (start stop : Timespec)
    → IsNormal start
    → IsNormal stop
    → start.tv_sec + 1 < 2 ^ 63
    → stop.tv_sec < 2 ^ 63
    → nanoseconds start ≤ nanoseconds stop
    → ((d : Timespec)
        → sleep_time start stop ≡ some d
        → nanoseconds stop + nanoseconds d ≡ nanoseconds start + 50000000)
      × ((sleep_time start stop ≡ none) ↔ (nanoseconds start + 50000000 ≤ nanoseconds stop))
unfolding sleep_time
sleep_time_fills start stop hs ht ss st le = by_order (timespec_cmp target stop) refl
  where
    target : Timespec
    target = timespec_addraw start 0 50000000

    exact : (nanoseconds target ≡ nanoseconds start + (0 * 1000000000 + 50000000)) × IsNormal target
    exact = nanoseconds-addraw start 0 50000000 (omega arith) (omega arith)

    near : target.tv_sec < 2 ^ 63
    near = omega (arith, exact)

    by_order :
        (o : Order)
        → timespec_cmp target stop ≡ o
        → Fills start stop (elim o [ Order.later ↦ some (timespec_diff stop target) | _ ↦ none ])
    by_order Order.later e =
        let early = (timespec_cmp_iff target stop exact.1 ht near st).0.0 e in
        Fills-some start stop (timespec_diff stop target)
          (omega
            (arith, nanoseconds-diff stop target ht exact.1 st near (omega (arith, early)), exact))
          (omega (arith, early, exact))
    by_order Order.same e =
        let on_time = (timespec_cmp_iff target stop exact.1 ht near st).1.0 e in
        Fills-none start stop (omega (arith, on_time, exact))
    by_order Order.earlier e =
        let late = (timespec_cmp_iff target stop exact.1 ht near st).2.0 e in
        Fills-none start stop (omega (arith, late, exact))

planned_thread_count_bounds :
    (cores : ℕ)
    → cores < 2 ^ 32
    → (0 < planned_thread_count cores) × (planned_thread_count cores < 2 ^ 32)
unfolding planned_thread_count
planned_thread_count_bounds cores h = ground arith

count_cores-lt : (num cores : ℕ) → count_cores num ≡ ok cores → cores < 2 ^ 32
unfolding count_cores
count_cores-lt num cores e = ground arith

-- Whatever number of cores the system reports, where the pool is set up it has a thread, and its
-- threads serve every client once.
pub init_thread_pooling-serve_clients :
    {A : Type 0} (num : ℕ) (threads : ℕ) (clients : List A)
    → length clients < 2 ^ 32
    → init_thread_pooling num ≡ ok threads
    → (batches : List (List A)) × (serve_clients threads (length clients) clients ≡ ok batches)
      × (concat batches ≡ clients)
unfolding init_thread_pooling
init_thread_pooling-serve_clients num threads clients small e =
    let (cores, counted, planned) = >>=-eq-ok (count_cores num) _ e in
    let bounds = planned_thread_count_bounds cores (count_cores-lt num cores counted) in
    let same : planned_thread_count cores ≡ threads = cc in
    let (batches, served, all, few) =
      serve_clients-concat threads clients (subst (λ n. 0 < n) same bounds.0)
        (subst (λ n. n < 2 ^ 32) same bounds.1) small in
    (batches, served, all)
