-- ===== src/Locks/Futex.antt =====
-- RawFutexMutex, AdaptiveFutexMutex and Cpp20AtomicWaitLock: one atomic word and, for each thread,
-- the place it has reached in `lock()` or `unlock()`. The three differ in the number of rounds that
-- they spin (0, 40 and 40); futex and std::atomic::wait agree on what the code relies on: a wait
-- returns at once if the word is not 2, it may return at any time, and a wake lets one sleeper go.
use hotpathcplusplus.Base.{ℕ, ◌+◌, ◌≤◌, ◌<◌, ◌≡◌, ◌≢◌, ◌==◌, if◌then◌else◌, update}

-- Where a thread stands. The argument `c` is the local variable of that name.
pub data Pc : Type 0 where
  idle : Pc
  spinning : (spin c : ℕ) → Pc
  attempting : (spin : ℕ) → Pc
  contended : (c : ℕ) → Pc
  waiting : Pc
  sleeping : Pc
  retrying : Pc
  holding : Pc
  waking : Pc

pub record Mutex : Type 0 where
  pub state : ℕ
  pub pc : ℕ → Pc

-- thread `i` goes on to `p`, and leaves `word` in the state
unfoldable pub move : Mutex → ℕ → ℕ → Pc → Mutex
move m i word p = record { state = word; pc = update m.pc i p }

-- `c = state.exchange(2)` and then the test of `while (c != 0)`
unfoldable pub exchange_two : Mutex → ℕ → Mutex
unfolding move
exchange_two m i = move m i 2 (if m.state == 0 then holding else waiting)

-- `state.compare_exchange(c, 1)` with `c = 0`
unfoldable pub compare_exchange : Mutex → ℕ → Pc → Mutex
unfolding move
compare_exchange m i failed = if m.state == 0 then move m i 1 holding else move m i m.state failed

-- `state.exchange(0) == 2`
unfoldable pub exchange_zero : Mutex → ℕ → Mutex
unfolding move
exchange_zero m i = move m i 0 (if m.state == 2 then waking else idle)

-- One step of thread `i`, under a bound on the spins.
pub data Step (limit : ℕ) (m : Mutex) : Mutex → Type 0 where
  lock : (i : ℕ) → m.pc i ≡ idle → Step limit m (compare_exchange m i (spinning 0 m.state))
  spin_free :
      (i k c : ℕ)
      → m.pc i ≡ spinning k c
      → k < limit
      → m.state ≡ 0
      → Step limit m (move m i m.state (attempting k))
  spin_taken :
      (i k c : ℕ)
      → m.pc i ≡ spinning k c
      → k < limit
      → m.state ≢ 0
      → Step limit m (move m i m.state (spinning (k + 1) c))
  attempt :
      (i k : ℕ)
      → m.pc i ≡ attempting k
      → Step limit m (compare_exchange m i (spinning (k + 1) m.state))
  attempt_spurious :
      (i k : ℕ)
      → m.pc i ≡ attempting k
      → m.state ≡ 0
      → Step limit m (move m i m.state (spinning (k + 1) 0))
  spin_end :
      (i k c : ℕ)
      → m.pc i ≡ spinning k c
      → limit ≤ k
      → Step limit m (move m i m.state (contended c))
  contend_first : (i c : ℕ) → m.pc i ≡ contended c → c ≢ 2 → Step limit m (exchange_two m i)
  contend_again : (i : ℕ) → m.pc i ≡ contended 2 → Step limit m (move m i m.state waiting)
  sleep : (i : ℕ) → m.pc i ≡ waiting → m.state ≡ 2 → Step limit m (move m i m.state sleeping)
  not_two : (i : ℕ) → m.pc i ≡ waiting → m.state ≢ 2 → Step limit m (move m i m.state retrying)
  return_early : (i : ℕ) → m.pc i ≡ sleeping → Step limit m (move m i m.state retrying)
  retry : (i : ℕ) → m.pc i ≡ retrying → Step limit m (exchange_two m i)
  unlock : (i : ℕ) → m.pc i ≡ holding → Step limit m (exchange_zero m i)
  wake :
      (i j : ℕ)
      → m.pc i ≡ waking
      → m.pc j ≡ sleeping
      → Step limit m (record m { pc = update (update m.pc i idle) j retrying })
  wake_nobody :
      (i : ℕ)
      → m.pc i ≡ waking
      → ((j : ℕ) → m.pc j ≢ sleeping)
      → Step limit m (move m i m.state idle)

-- `state{0}`, before any thread calls lock()
abbrev pub unlocked : Mutex
unlocked = record { state = 0; pc = λ i. idle }

pub data Reach (limit : ℕ) : Mutex → Type 0 where
  start : Reach limit unlocked
  step : {m n : Mutex} → Reach limit m → Step limit m n → Reach limit n
