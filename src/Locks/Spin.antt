-- ===== src/Locks/Spin.antt =====
-- The spinlocks: NaiveTASLock, TTASNoPauseLock and TTASPauseLock of locks_under_the_hood.h, and
-- NaiveCasSpinlock and ReadBeforeCasSpinlock of mesi_coherency.h. One flag, and for each thread the
-- place it has reached in its `lock()`.
use hotpathcplusplus.Base.{ℕ, ◌≡◌, ◌≢◌, refl, Bool, true, false, update, arith}

-- `loading`: before the relaxed load of the condition; `taking`: before the exchange, test_and_set
-- or compare_exchange; `polling`: in the inner `while` on the flag.
pub data Pc : Type 0 where
  idle loading taking polling holding : Pc

pub data Lock : Type 0 where
  naive_tas_lock ttas_no_pause_lock ttas_pause_lock : Lock
  naive_cas_spinlock read_before_cas_spinlock : Lock

pub record SpinLock : Type 0 where
  pub locked : Bool
  pub pc : ℕ → Pc

-- where `lock()` begins
unfoldable pub first : Lock → Pc
first ttas_no_pause_lock = loading
first ttas_pause_lock = loading
first _ = taking

-- where a failed exchange, test_and_set or compare_exchange leads
unfoldable pub after_failure : Lock → Pc
after_failure naive_tas_lock = taking
after_failure naive_cas_spinlock = taking
after_failure _ = polling

-- where the inner `while` leads once the flag is seen clear
unfoldable pub after_poll : Lock → Pc
after_poll read_before_cas_spinlock = taking
after_poll _ = loading

-- whether the atomic operation may fail although the flag is clear: compare_exchange_weak
unfoldable pub is_weak : Lock → Bool
is_weak naive_cas_spinlock = true
is_weak read_before_cas_spinlock = true
is_weak _ = false

pub data Step (k : Lock) (m : SpinLock) : SpinLock → Type 0 where
  lock : (i : ℕ) → m.pc i ≡ idle → Step k m (record m { pc = update m.pc i (first k) })
  load_clear :
      (i : ℕ)
      → m.pc i ≡ loading
      → m.locked ≡ false
      → Step k m (record m { pc = update m.pc i taking })
  load_set :
      (i : ℕ)
      → m.pc i ≡ loading
      → m.locked ≡ true
      → Step k m (record m { pc = update m.pc i polling })
  take :
      (i : ℕ)
      → m.pc i ≡ taking
      → m.locked ≡ false
      → Step k m (record { locked = true; pc = update m.pc i holding })
  fail :
      (i : ℕ)
      → m.pc i ≡ taking
      → m.locked ≡ true
      → Step k m (record m { pc = update m.pc i (after_failure k) })
  fail_spurious :
      (i : ℕ)
      → m.pc i ≡ taking
      → is_weak k ≡ true
      → Step k m (record m { pc = update m.pc i (after_failure k) })
  poll_clear :
      (i : ℕ)
      → m.pc i ≡ polling
      → m.locked ≡ false
      → Step k m (record m { pc = update m.pc i (after_poll k) })
  poll_set : (i : ℕ) → m.pc i ≡ polling → m.locked ≡ true → Step k m m
  unlock :
      (i : ℕ) → m.pc i ≡ holding → Step k m (record { locked = false; pc = update m.pc i idle })

abbrev pub clear : SpinLock
clear = record { locked = false; pc = λ i. idle }

pub data Reach (k : Lock) : SpinLock → Type 0 where
  start : Reach k clear
  step : {m n : SpinLock} → Reach k m → Step k m n → Reach k n

record Held (m : SpinLock) : Type 0 where
  unique : (i j : ℕ) → m.pc i ≡ holding → m.pc j ≡ holding → i ≡ j
  shut : (i : ℕ) → m.pc i ≡ holding → m.locked ≡ true

move-Held :
    (m : SpinLock) (i : ℕ) (p : Pc)
    → p ≢ holding
    → Held m
    → Held (record m { pc = update m.pc i p })
move-Held m i p out v = record {
  unique = λ j k a b. ground (arith, v.unique j k);
  shut = λ j a. v.shut j (ground arith);
}

first_lem : (k : Lock) → first k ≢ holding
unfolding first
first_lem k = λ e. ground arith

after_failure_lem : (k : Lock) → after_failure k ≢ holding
unfolding after_failure
after_failure_lem k = λ e. ground arith

after_poll_lem : (k : Lock) → after_poll k ≢ holding
unfolding after_poll
after_poll_lem k = λ e. ground arith

Step-Held : {k : Lock} {m n : SpinLock} → Step k m n → Held m → Held n
Step-Held {k} {m} (lock i e) v = move-Held m i _ (first_lem k) v
Step-Held {k} {m} (load_clear i e z) v = move-Held m i taking (λ h. ground arith) v
Step-Held {k} {m} (load_set i e z) v = move-Held m i polling (λ h. ground arith) v
Step-Held {k} {m} (take i e z) v = record {
  unique = λ j l a b. ground (arith, v.shut j, v.shut l);
  shut = λ j a. refl;
}
Step-Held {k} {m} (fail i e z) v = move-Held m i _ (after_failure_lem k) v
Step-Held {k} {m} (fail_spurious i e z) v = move-Held m i _ (after_failure_lem k) v
Step-Held {k} {m} (poll_clear i e z) v = move-Held m i _ (after_poll_lem k) v
Step-Held {k} {m} (poll_set i e z) v = v
Step-Held {k} {m} (unlock i e) v = record {
  unique = λ j l a b. ground (arith, v.unique i j, v.unique i l);
  shut = λ j a. ground (arith, v.unique i j);
}

Reach-Held : {k : Lock} {m : SpinLock} → Reach k m → Held m
Reach-Held start = record { unique = λ i j a b. ground arith; shut = λ i a. ground arith }
Reach-Held (step r s) = Step-Held s (Reach-Held r)

-- Whichever spinlock it is and however the steps are mixed, two threads never hold it at once, and
-- a new attempt finds the flag set while it is held.
pub one_holder :
    {k : Lock} {m : SpinLock} (i j : ℕ)
    → Reach k m
    → m.pc i ≡ holding
    → m.pc j ≡ holding
    → (i ≡ j) × (m.locked ≡ true)
one_holder i j r a b = ((Reach-Held r).unique i j a b, (Reach-Held r).shut i a)
