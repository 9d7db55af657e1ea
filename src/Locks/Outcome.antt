-- ===== src/Locks/Outcome.antt =====
-- RunLockTrial does not get stuck, and what it leaves is right.
use hotpathcplusplus.Base.{
  ℕ, zero, suc, ◌<◌, ◌≤◌, ◌≡◌, ◌≢◌, refl, sym, subst, ◌⊎◌, inl, inr, ℕ_discrete, dec_lt, arith,
}
use hotpathcplusplus.Locks.Machine.{Label, calls, releases, other, LockMachine, IsLock}
use hotpathcplusplus.Locks.Live.{Labelled, IsLive}
use hotpathcplusplus.Locks.Trial.{
  Stage, outside, loaded, stored, LockTrial, Allowed, Step, lock_step, load, store, Reach, Joined,
}
use hotpathcplusplus.Locks.Tally.{IsSound, Reach-IsSound, IsRight, Joined-IsRight}

module _ {k : LockMachine} (num_threads ops_per_thread : ℕ) (s : LockTrial k) where
  abbrev Moves : Type 0
  Moves = (t : LockTrial k) × Step num_threads ops_per_thread s t

  -- a step of the lock, by its label
  lock_moves : (l : Label) → Labelled k s.lock l → Allowed num_threads ops_per_thread s l → Moves
  lock_moves l (n, st, e) allowed =
      (_, lock_step n st (subst (Allowed num_threads ops_per_thread s) (sym e) allowed))

  -- A thread with rounds left has a step, or there is one of the lock that it waits for.
  thread_moves :
      (i : ℕ) (p : Stage)
      → s.stage i ≡ p
      → i < num_threads
      → s.rounds i < ops_per_thread
      → IsLive k
      → IsSound num_threads ops_per_thread s
      → Moves
  thread_moves i outside e lt more live v = elim (live.goes s.lock i v.runs) [
    | inl holds ↦ (_, load i lt more holds e)
    | inr moves ↦ elim moves [
      | inl call ↦ lock_moves (calls i) call (lt, more, e)
      | inr step ↦ lock_moves other step tt
    ]
  ]
  thread_moves i (loaded x) e lt more live v = (_, store i x e)
  thread_moves i stored e lt more live v =
      lock_moves (releases i) (live.leaves s.lock i (v.inside i (λ q. cc)).0) e

-- a thread with rounds left, if there is one
find_unfinished :
    (rounds : ℕ → ℕ) (ops n : ℕ)
    → ((i : ℕ) × (i < n) × (rounds i < ops)) ⊎ ((i : ℕ) → i < n → ops ≤ rounds i)
find_unfinished rounds ops zero = inr (λ i h. absurd (omega arith))
find_unfinished rounds ops (suc n) = elim (dec_lt (rounds n) ops) [
  | yes h ↦ inl (n, omega arith, h)
  | no w ↦ elim (find_unfinished rounds ops n) [
    | inl (i, lt, h) ↦ inl (i, omega (arith, lt), h)
    | inr rest ↦ inr (λ i h. elim (ℕ_discrete i n) [
      | yes q ↦ subst (λ j. ops ≤ rounds j) (sym q) (omega (arith, w))
      | no d ↦ rest i (omega (arith, h, d))
    ])
  ]
]

outside_cases : (p : Stage) → (p ≡ outside) ⊎ (p ≢ outside)
outside_cases outside = inl refl
outside_cases (loaded x) = inr (λ e. cc)
outside_cases stored = inr (λ e. cc)

-- At every reachable state of the trial either some step can be taken, or every thread has left its
-- loop and the shared state is that of the same number of transfers one after the other, none lost,
-- the sequence number is their number in 64 bits, and the check of the trial succeeds: for any machine
-- with the promises of a lock, at which every thread has a step, any numbers of threads and rounds
-- and any order of their steps.
pub trial_lem :
    {k : LockMachine} {num_threads ops_per_thread : ℕ} {s : LockTrial k}
    → IsLock k
    → IsLive k
    → Reach k num_threads ops_per_thread s
    → ((t : LockTrial k) × Step num_threads ops_per_thread s t)
      ⊎ (Joined num_threads ops_per_thread s × IsRight num_threads ops_per_thread s)
trial_lem {num_threads = m} {ops_per_thread = o} {s} lock live r =
    let v = Reach-IsSound lock r in
    elim (find_unfinished s.rounds o m) [
      | inl (i, lt, more) ↦ inl (thread_moves m o s i (s.stage i) refl lt more live v)
      | inr rest ↦
          let joined : Joined m o s = λ i lt. elim (outside_cases (s.stage i)) [
            | inl out ↦ (omega (arith, rest i lt, v.within i), out)
            | inr w ↦ absurd (omega (arith, rest i lt, v.busy i w))
          ] in
          inr (joined, Joined-IsRight lock r joined)
    ]
