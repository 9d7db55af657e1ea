-- ===== src/Locks/Trial.antt =====
-- RunLockTrial of common/locks_under_the_hood/challenge.cc without its clocks and its barrier:
-- threads that each call ApplyTransfer under a lock a number of times, and the check on what they
-- leave. A critical section reads the shared state in one step and stores the new one in another, so
-- that two threads inside at once would lose an update.
use hotpathcplusplus.Base.{ℕ, ◌+◌, ◌<◌, ◌≡◌, Bool, ◌&&◌, ◌==◌, update, mul64, add64}
use hotpathcplusplus.Locks.Machine.{Label, calls, releases, other, LockMachine}
use hotpathcplusplus.Mesi.Ledger.{ProtectedState, new_state, apply_transfer}

-- Where a thread stands in a round of its loop: outside the critical section, with the state that it
-- has read, or with the new state stored.
pub data Stage : Type 0 where
  outside : Stage
  loaded : ProtectedState → Stage
  stored : Stage

-- the lock, the shared state, and for each thread its stage and the rounds that it has finished
pub record LockTrial (k : LockMachine) : Type 0 where
  pub lock : k.State
  pub shared : ProtectedState
  pub stage : ℕ → Stage
  pub rounds : ℕ → ℕ

abbrev pub new_trial : (k : LockMachine) → LockTrial k
new_trial k = record { lock = k.initial; shared = new_state; stage = λ i. outside; rounds = λ i. 0 }

-- When a step of the lock can happen: a thread calls `lock()` in the loop, and gives the lock up at
-- the end of its critical section.
abbrev pub Allowed :
    {k : LockMachine} → (num_threads ops_per_thread : ℕ) → LockTrial k → Label → Type 0
Allowed num_threads ops_per_thread s (calls i) =
    (i < num_threads) × (s.rounds i < ops_per_thread) × (s.stage i ≡ outside)
Allowed num_threads ops_per_thread s (releases i) = s.stage i ≡ stored
Allowed num_threads ops_per_thread s other = Unit

-- the trial after a step of the lock: giving it up ends a round
unfoldable pub after : {k : LockMachine} → LockTrial k → k.State → Label → LockTrial k
after s n (calls i) = record s { lock = n }
after s n (releases i) = record s {
  lock = n;
  stage = update s.stage i outside;
  rounds = update s.rounds i (s.rounds i + 1);
}
after s n other = record s { lock = n }

pub data Step {k : LockMachine} (num_threads ops_per_thread : ℕ) (s : LockTrial k)
    : LockTrial k → Type 0 where
  lock_step :
      (n : k.State) (st : k.Step s.lock n)
      → Allowed num_threads ops_per_thread s (k.label s.lock n st)
      → Step num_threads ops_per_thread s (after s n (k.label s.lock n st))
  load :
      (i : ℕ)
      → i < num_threads
      → s.rounds i < ops_per_thread
      → k.Holding s.lock i
      → s.stage i ≡ outside
      → Step num_threads ops_per_thread s (record s { stage = update s.stage i (loaded s.shared) })
  store :
      (i : ℕ) (v : ProtectedState)
      → s.stage i ≡ loaded v
      → Step num_threads ops_per_thread s
          (record s { shared = apply_transfer v 1; stage = update s.stage i stored })

pub data Reach (k : LockMachine) (num_threads ops_per_thread : ℕ) : LockTrial k → Type 0 where
  start : Reach k num_threads ops_per_thread (new_trial k)
  step :
      {s t : LockTrial k}
      → Reach k num_threads ops_per_thread s
      → Step num_threads ops_per_thread s t
      → Reach k num_threads ops_per_thread t

-- every thread has left its loop: what the calls of `join` wait for
abbrev pub Joined : {k : LockMachine} → (num_threads ops_per_thread : ℕ) → LockTrial k → Type 0
Joined num_threads ops_per_thread s =
    (i : ℕ) → i < num_threads → (s.rounds i ≡ ops_per_thread) × (s.stage i ≡ outside)

-- the `ok` of the result, and its `final_seq` is the sequence number
unfoldable pub invariant_ok : (num_threads ops_per_thread : ℕ) → ProtectedState → Bool
invariant_ok num_threads ops_per_thread shared =
    let total_ops = mul64 num_threads ops_per_thread in
    (shared.sequence == total_ops) && (add64 shared.balance_a shared.balance_b == 2000000)
