-- ===== src/Locks/Machine.antt =====
-- What a client of a lock relies on: a machine whose steps say when a thread calls `lock()` and when
-- it gives the lock up, and the promises of a lock. The spinlocks and the three-state mutexes are
-- such machines.
use hotpathcplusplus.Base.{ℕ, ◌≡◌, ◌≢◌, ap, arith}
use hotpathcplusplus.Locks.Futex
use hotpathcplusplus.Locks.Spin
use hotpathcplusplus.Locks.Exclusion.{mutual_exclusion}
use hotpathcplusplus.Locks.Spin.{one_holder}

pub data Label : Type 0 where
  calls : ℕ → Label
  releases : ℕ → Label
  other : Label

pub record LockMachine : Type 1 where
  pub State : Type 0
  pub initial : State
  pub Step : State → State → Type 0
  pub label : (m n : State) → Step m n → Label
  pub Holding : State → ℕ → Type 0

pub data Runs (k : LockMachine) : k.State → Type 0 where
  start : Runs k k.initial
  step : {m n : k.State} → Runs k m → k.Step m n → Runs k n

-- One holder at a time, and a holder stays one until it gives the lock up.
pub record IsLock (k : LockMachine) : Type 0 where
  pub one_holder : (m : k.State) (i j : ℕ) → Runs k m → k.Holding m i → k.Holding m j → i ≡ j
  pub keeps :
      (m n : k.State) (s : k.Step m n) (i : ℕ)
      → k.Holding m i
      → k.label m n s ≢ releases i
      → k.Holding n i

unfoldable pub spin_label : {k : Spin.Lock} (m n : Spin.SpinLock) → Spin.Step k m n → Label
spin_label m n (Spin.Step.lock i e) = calls i
spin_label m n (Spin.Step.unlock i e) = releases i
spin_label m n _ = other

abbrev pub spin_lock : Spin.Lock → LockMachine
spin_lock k = record {
  State = Spin.SpinLock;
  initial = Spin.clear;
  Step = Spin.Step k;
  label = λ m n s. spin_label m n s;
  Holding = λ m i. m.pc i ≡ Spin.holding;
}

spin-Reach : {k : Spin.Lock} {m : Spin.SpinLock} → Runs (spin_lock k) m → Spin.Reach k m
spin-Reach start = Spin.Reach.start
spin-Reach (step r s) = Spin.Reach.step (spin-Reach r) s

spin_keeps :
    {k : Spin.Lock} (m n : Spin.SpinLock) (s : Spin.Step k m n) (i : ℕ)
    → m.pc i ≡ Spin.holding
    → spin_label m n s ≢ releases i
    → n.pc i ≡ Spin.holding
unfolding spin_label
spin_keeps m n (Spin.Step.lock j e) i h w = ground arith
spin_keeps m n (Spin.Step.load_clear j e z) i h w = ground arith
spin_keeps m n (Spin.Step.load_set j e z) i h w = ground arith
spin_keeps m n (Spin.Step.take j e z) i h w = ground arith
spin_keeps m n (Spin.Step.fail j e z) i h w = ground arith
spin_keeps m n (Spin.Step.fail_spurious j e z) i h w = ground arith
spin_keeps m n (Spin.Step.poll_clear j e z) i h w = ground arith
spin_keeps m n (Spin.Step.poll_set j e z) i h w = h
spin_keeps m n (Spin.Step.unlock j e) i h w = ground (arith, λ (q : j ≡ i). w (ap releases q))

-- Each of the five spinlocks is a lock.
pub spin_lock-IsLock : (k : Spin.Lock) → IsLock (spin_lock k)
spin_lock-IsLock k = record {
  one_holder = λ m i j r a b. (one_holder i j (spin-Reach r) a b).0;
  keeps = spin_keeps;
}

unfoldable pub futex_label : {limit : ℕ} (m n : Futex.Mutex) → Futex.Step limit m n → Label
futex_label m n (Futex.Step.lock i e) = calls i
futex_label m n (Futex.Step.unlock i e) = releases i
futex_label m n _ = other

abbrev pub futex_mutex : ℕ → LockMachine
futex_mutex limit = record {
  State = Futex.Mutex;
  initial = Futex.unlocked;
  Step = Futex.Step limit;
  label = λ m n s. futex_label m n s;
  Holding = λ m i. m.pc i ≡ Futex.holding;
}

futex-Reach : {limit : ℕ} {m : Futex.Mutex} → Runs (futex_mutex limit) m → Futex.Reach limit m
futex-Reach start = Futex.Reach.start
futex-Reach (step r s) = Futex.Reach.step (futex-Reach r) s

futex_keeps :
    {limit : ℕ} (m n : Futex.Mutex) (s : Futex.Step limit m n) (i : ℕ)
    → m.pc i ≡ Futex.holding
    → futex_label m n s ≢ releases i
    → n.pc i ≡ Futex.holding
unfolding futex_label Futex.move Futex.compare_exchange Futex.exchange_two Futex.exchange_zero
futex_keeps m n (Futex.Step.lock j e) i h w = ground arith
futex_keeps m n (Futex.Step.spin_free j k c e b z) i h w = ground arith
futex_keeps m n (Futex.Step.spin_taken j k c e b z) i h w = ground arith
futex_keeps m n (Futex.Step.attempt j k e) i h w = ground arith
futex_keeps m n (Futex.Step.attempt_spurious j k e z) i h w = ground arith
futex_keeps m n (Futex.Step.spin_end j k c e b) i h w = ground arith
futex_keeps m n (Futex.Step.contend_first j c e z) i h w = ground arith
futex_keeps m n (Futex.Step.contend_again j e) i h w = ground arith
futex_keeps m n (Futex.Step.sleep j e z) i h w = ground arith
futex_keeps m n (Futex.Step.not_two j e z) i h w = ground arith
futex_keeps m n (Futex.Step.return_early j e) i h w = ground arith
futex_keeps m n (Futex.Step.retry j e) i h w = ground arith
futex_keeps m n (Futex.Step.unlock j e) i h w = ground (arith, λ (q : j ≡ i). w (ap releases q))
futex_keeps m n (Futex.Step.wake j l e f) i h w = ground arith
futex_keeps m n (Futex.Step.wake_nobody j e z) i h w = ground arith

-- Each of the three-state mutexes is a lock, whatever its bound on the spins.
pub futex_mutex-IsLock : (limit : ℕ) → IsLock (futex_mutex limit)
futex_mutex-IsLock limit = record {
  one_holder = λ m i j r a b. mutual_exclusion i j (futex-Reach r) a b;
  keeps = futex_keeps;
}
