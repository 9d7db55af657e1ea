-- ===== src/Locks/Tally.antt =====
-- RunLockTrial loses no update, whatever the lock.
use hotpathcplusplus.Base.{
  ℕ, zero, suc, ◌+◌, ◌*◌, ◌%◌, ◌<◌, ◌≤◌, ◌≡◌, ◌≢◌, refl, sym, ap, subst, ◌∙◌, true, replicate,
  length-replicate, All, ==-at, ==-off, update, mul64, u64_mod, ℕ_discrete, arith,
}
use hotpathcplusplus.Base.Sums.{sum_below, sum_below-congr, sum_below-bump, sum_below-const}
use hotpathcplusplus.Locks.Machine.{Label, calls, releases, other, LockMachine, Runs, IsLock}
use hotpathcplusplus.Locks.Trial.{
  Stage, outside, loaded, stored, LockTrial, Allowed, after, Step, lock_step, load, store, Reach,
  start, step, Joined, invariant_ok,
}
use hotpathcplusplus.Mesi.Ledger.{
  ProtectedState, new_state, apply_transfer, run_transfers, run_transfers-funds, funds,
}

-- `n` transfers of one unit
abbrev pub transfers : ℕ → ProtectedState
transfers n = run_transfers new_state (replicate n 1)

run_transfers-suc :
    (n : ℕ) (s : ProtectedState)
    → run_transfers s (replicate (suc n) 1) ≡ apply_transfer (run_transfers s (replicate n 1)) 1
unfolding run_transfers
run_transfers-suc zero s = refl
run_transfers-suc (suc n) s = run_transfers-suc n (apply_transfer s 1)

abbrev pub in_flight : Stage → ℕ
in_flight outside = 0
in_flight (loaded v) = 0
in_flight stored = 1

releases_inj : {i j : ℕ} → releases i ≡ releases j → i ≡ j
releases_inj e = cc

module _ {k : LockMachine} (num_threads ops_per_thread : ℕ) where
  -- the updates that have been stored
  abbrev pub done : LockTrial k → ℕ
  done s = sum_below (λ i. s.rounds i + in_flight (s.stage i)) num_threads

  pub record IsSound (s : LockTrial k) : Type 0 where
    pub runs : Runs k s.lock
    pub inside : (i : ℕ) → s.stage i ≢ outside → k.Holding s.lock i × (i < num_threads)
    pub fresh : (i : ℕ) (v : ProtectedState) → s.stage i ≡ loaded v → v ≡ s.shared
    pub tally : s.shared ≡ transfers (done s)
    pub within : (i : ℕ) → s.rounds i ≤ ops_per_thread
    pub busy : (i : ℕ) → s.stage i ≢ outside → s.rounds i < ops_per_thread

  module _ (lock : IsLock k) (s : LockTrial k) (v : IsSound s) where
    -- a step of the lock at which nobody gives it up
    keep-IsSound :
        (n : k.State) (st : k.Step s.lock n)
        → ((i : ℕ) → k.label s.lock n st ≢ releases i)
        → IsSound (record s { lock = n })
    keep-IsSound n st kept = record {
      runs = Runs.step v.runs st;
      inside = λ i w. (lock.keeps s.lock n st i (v.inside i w).0 (kept i), (v.inside i w).1);
      fresh = v.fresh;
      tally = v.tally;
      within = v.within;
      busy = v.busy;
    }

    release-IsSound :
        (n : k.State) (st : k.Step s.lock n) (i : ℕ)
        → k.label s.lock n st ≡ releases i
        → s.stage i ≡ stored
        → IsSound (after s n (releases i))
    unfolding after
    release-IsSound n st i e at = record {
      runs = Runs.step v.runs st;
      inside = λ j w. elim (ℕ_discrete i j) [
        | yes q ↦ absurd (w (rw (==-at q) refl))
        | no d ↦
            let (holds, below) = v.inside j (λ q. w (rw (==-off d) q)) in
            (lock.keeps s.lock n st j holds (λ q. d (releases_inj (sym e ∙ q))), below)
      ];
      fresh = λ j x q. ground (arith, v.fresh j x);
      tally = v.tally ∙ ap transfers (sum_below-congr _ _ num_threads (λ j lt. ground arith));
      within = λ j. ground (arith, v.within j, v.busy i (λ q. cc));
      busy = λ j w. elim (ℕ_discrete i j) [
        | yes q ↦ absurd (w (rw (==-at q) refl))
        | no d ↦ ground (arith, v.busy j (λ q. w (rw (==-off d) q)))
      ];
    }

    load-IsSound :
        (i : ℕ)
        → i < num_threads
        → s.rounds i < ops_per_thread
        → k.Holding s.lock i
        → s.stage i ≡ outside
        → IsSound (record s { stage = update s.stage i (loaded s.shared) })
    load-IsSound i lt more holds out = record {
      runs = v.runs;
      inside = λ j w. elim (ℕ_discrete i j) [
        | yes q ↦ (subst (k.Holding s.lock) q holds, omega (arith, q))
        | no d ↦ v.inside j (λ q. w (rw (==-off d) q))
      ];
      fresh = λ j x q. ground (arith, v.fresh j x);
      tally = v.tally ∙ ap transfers (sum_below-congr _ _ num_threads (λ j lt. ground arith));
      within = v.within;
      busy = λ j w. elim (ℕ_discrete i j) [
        | yes q ↦ subst (λ l. s.rounds l < ops_per_thread) q more
        | no d ↦ v.busy j (λ q. w (rw (==-off d) q))
      ];
    }

    store-IsSound :
        (i : ℕ) (x : ProtectedState)
        → s.stage i ≡ loaded x
        → IsSound (record s { shared = apply_transfer x 1; stage = update s.stage i stored })
    store-IsSound i x e =
        let (holds, below) = v.inside i (λ q. cc) in
        let t : LockTrial k = record s {
          shared = apply_transfer x 1;
          stage = update s.stage i stored;
        } in
        let one : done t ≡ suc (done s) =
          sum_below-bump (λ j. s.rounds j + in_flight (s.stage j)) _ num_threads i below
            (ground arith) (λ j d. ground arith)
          ∙ omega arith in
        record {
          runs = v.runs;
          inside = λ j w. elim (ℕ_discrete i j) [
            | yes q ↦ (subst (k.Holding s.lock) q holds, omega (arith, q, below))
            | no d ↦ v.inside j (λ q. w (rw (==-off d) q))
          ];
          fresh = λ j y q. elim (ℕ_discrete i j) [
            | yes same ↦ absurd (ground arith)
            | no d ↦
                let at : s.stage j ≡ loaded y = sym (rw (==-off d) refl) ∙ q in
                absurd (d (lock.one_holder s.lock i j v.runs holds (v.inside j (λ z. cc)).0))
          ];
          tally =
              ap (λ (u : ProtectedState). apply_transfer u 1) (v.fresh i x e ∙ v.tally)
              ∙ sym (run_transfers-suc (done s) new_state)
              ∙ ap transfers (sym one);
          within = v.within;
          busy = λ j w. elim (ℕ_discrete i j) [
            | yes q ↦ subst (λ l. s.rounds l < ops_per_thread) q (v.busy i (λ z. cc))
            | no d ↦ v.busy j (λ q. w (rw (==-off d) q))
          ];
        }

lock_step-IsSound :
    {k : LockMachine} (num_threads ops_per_thread : ℕ) (lock : IsLock k) (s : LockTrial k)
    (v : IsSound num_threads ops_per_thread s) (n : k.State) (st : k.Step s.lock n) (l : Label)
    → k.label s.lock n st ≡ l
    → Allowed num_threads ops_per_thread s l
    → IsSound num_threads ops_per_thread (after s n l)
unfolding after
lock_step-IsSound m o lock s v n st (calls i) e allowed =
    keep-IsSound m o lock s v n st (λ j q. cc (sym e ∙ q))
lock_step-IsSound m o lock s v n st (releases i) e allowed =
    release-IsSound m o lock s v n st i e allowed
lock_step-IsSound m o lock s v n st other e allowed =
    keep-IsSound m o lock s v n st (λ j q. cc (sym e ∙ q))

Step-IsSound :
    {k : LockMachine} {num_threads ops_per_thread : ℕ} (lock : IsLock k) {s t : LockTrial k}
    → Step num_threads ops_per_thread s t
    → IsSound num_threads ops_per_thread s
    → IsSound num_threads ops_per_thread t
Step-IsSound {num_threads = m} {ops_per_thread = o} lock {s} (lock_step n st allowed) v =
    lock_step-IsSound m o lock s v n st _ refl allowed
Step-IsSound {num_threads = m} {ops_per_thread = o} lock {s} (load i lt more holds out) v =
    load-IsSound m o lock s v i lt more holds out
Step-IsSound {num_threads = m} {ops_per_thread = o} lock {s} (store i x e) v =
    store-IsSound m o lock s v i x e

pub Reach-IsSound :
    {k : LockMachine} {num_threads ops_per_thread : ℕ} (lock : IsLock k) {s : LockTrial k}
    → Reach k num_threads ops_per_thread s
    → IsSound num_threads ops_per_thread s
unfolding run_transfers
Reach-IsSound {num_threads = m} lock start =
    let nothing : sum_below (λ j. 0 + in_flight outside) m ≡ 0 =
      sum_below-const (λ j. 0 + in_flight outside) m 0 (λ j lt. refl) ∙ omega arith in
    record {
      runs = Runs.start;
      inside = λ i w. absurd (w refl);
      fresh = λ i v e. cc;
      tally = sym (ap transfers nothing);
      within = λ i. omega arith;
      busy = λ i w. absurd (w refl);
    }
Reach-IsSound lock (step r st) = Step-IsSound lock st (Reach-IsSound lock r)

-- Transfers of one unit leave as many counted as there were, and the funds of the start.
transfers_lem : (n : ℕ) → (funds (transfers n) ≡ 2000000) × ((transfers n).sequence ≡ n % u64_mod)
transfers_lem n =
    let (f, q) = run_transfers-funds new_state (replicate n 1) (omega arith) (ones n) in
    (omega (arith, f), omega (arith, q, length-replicate {A = ℕ} n 1))
  where
    ones : (m : ℕ) → All (λ x. x < u64_mod) (replicate m 1)
    ones zero = tt
    ones (suc m) = (omega arith, ones m)

-- What a trial leaves: the state after the same number of transfers one after the other, that number
-- in 64 bits as the sequence number, and a check that succeeds.
abbrev pub IsRight : {k : LockMachine} → (num_threads ops_per_thread : ℕ) → LockTrial k → Type 0
IsRight num_threads ops_per_thread s =
    (s.shared ≡ run_transfers new_state (replicate (num_threads * ops_per_thread) 1))
    × (s.shared.sequence ≡ mul64 num_threads ops_per_thread)
    × (invariant_ok num_threads ops_per_thread s.shared ≡ true)

-- Once every thread has left its loop, no update has been lost.
pub Joined-IsRight :
    {k : LockMachine} {num_threads ops_per_thread : ℕ} {s : LockTrial k}
    → IsLock k
    → Reach k num_threads ops_per_thread s
    → Joined num_threads ops_per_thread s
    → IsRight num_threads ops_per_thread s
unfolding invariant_ok
Joined-IsRight {num_threads = m} {ops_per_thread = o} {s} lock r joined =
    let v = Reach-IsSound lock r in
    let counted : done m o s ≡ m * o =
      sum_below-const (λ j. s.rounds j + in_flight (s.stage j)) m o
        (λ j lt. ground (arith, joined j lt)) in
    let same = v.tally ∙ ap transfers counted in
    let (f, q) = transfers_lem (m * o) in
    let sequence = ap (λ (u : ProtectedState). u.sequence) same ∙ q in
    let balance = ap funds same ∙ f in (same, sequence, ground (arith, sequence, balance))
