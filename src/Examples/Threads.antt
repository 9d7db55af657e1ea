-- ===== src/Examples/Threads.antt =====
-- The locks with two threads, and the sequence locks.
use hotpathcplusplus.Base.{ℕ, ◌+◌, ◌≡◌, refl, ◌⊎◌, true, false, [], ◌∷◌, update, some, arith}
use hotpathcplusplus.Locks.Futex.{
  spinning, contended, sleeping, holding, waking, retrying, Mutex, move, exchange_two,
  compare_exchange, lock, spin_end, contend_first, sleep, unlocked, Reach, start, step,
}
use hotpathcplusplus.Locks.Exclusion.{mutual_exclusion}
use hotpathcplusplus.Locks.Wakeup.{sleeper_is_owed}
use hotpathcplusplus.Locks.Spin
use hotpathcplusplus.Seqlock.Protocol.{
  Shared, WriterRun, read_begin, read_retry, read_retry-snapshot,
}
use hotpathcplusplus.Seqlock.RouteCache.{
  RouteEntry, default_entry, RouteCache, read, look_during, read_torn,
}

-- a thread
abbrev zeroth : ℕ
zeroth = 0

abbrev m1 : Mutex
m1 = compare_exchange unlocked 0 (spinning 0 0)

m1-Reach : Reach 0 m1
m1-Reach = step start (lock 0 refl)

m1_holds : m1.pc 0 ≡ holding
unfolding compare_exchange move
m1_holds = refl

mutual_exclusion_example : zeroth ≡ zeroth
mutual_exclusion_example = mutual_exclusion zeroth zeroth m1-Reach m1_holds m1_holds

abbrev m2 : Mutex
m2 = compare_exchange m1 1 (spinning 0 m1.state)

abbrev m3 : Mutex
m3 = move m2 1 m2.state (contended 1)

abbrev m4 : Mutex
m4 = exchange_two m3 1

abbrev m5 : Mutex
m5 = move m4 1 m4.state sleeping

m5-Reach : Reach 0 m5
unfolding compare_exchange move exchange_two
m5-Reach =
    step
      (step (step (step m1-Reach (lock 1 refl)) (spin_end 1 0 1 refl (omega arith)))
        (contend_first 1 1 refl (λ e. ground arith)))
      (sleep 1 refl refl)

m5_sleeps : m5.pc 1 ≡ sleeping
unfolding compare_exchange move exchange_two
m5_sleeps = refl

sleeper_is_owed_example :
    (k : ℕ) × ((m5.pc k ≡ holding) ⊎ ((m5.pc k ≡ waking) ⊎ (m5.pc k ≡ retrying)))
sleeper_is_owed_example = sleeper_is_owed 1 m5-Reach m5_sleeps

abbrev spun : Spin.SpinLock
spun = record { locked = true; pc = update (update Spin.clear.pc 0 Spin.taking) 0 Spin.holding }

spun-Reach : Spin.Reach Spin.naive_tas_lock spun
unfolding Spin.first
spun-Reach = Spin.step (Spin.step Spin.start (Spin.lock 0 refl)) (Spin.take 0 refl refl)

one_holder_example : (zeroth ≡ zeroth) × (spun.locked ≡ true)
one_holder_example = Spin.one_holder zeroth zeroth spun-Reach refl refl

abbrev shared : Shared
shared = record { lock = record { sequence = 4 }; words = λ i. i + 10 }

accepts : read_retry shared.lock (read_begin shared.lock) ≡ false
unfolding read_retry read_begin
accepts = refl

read_retry-snapshot_example : shared.words 3 ≡ shared.words 3
read_retry-snapshot_example =
    read_retry-snapshot {s = shared} {t = shared} {u = shared} WriterRun.here WriterRun.here accepts
      3

abbrev cache : RouteCache
cache = record { seq = 6; entry = default_entry }

abbrev update_entry : RouteEntry
update_entry = record { upstream_ip = 1; timeout_ms = 2; weight = 3; checksum = 4 }

read_torn_example :
    read (look_during cache update_entry 0 2 2 ∷ look_during cache update_entry 2 3 4 ∷ [])
    ≡ some (record cache.entry { upstream_ip = update_entry.upstream_ip })
read_torn_example = read_torn cache update_entry refl (omega arith)
