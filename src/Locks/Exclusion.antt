-- ===== src/Locks/Exclusion.antt =====
-- What the three-state mutexes promise: one holder at a time, and no sleeper without somebody who
-- will let it go.
use hotpathcplusplus.Base.{
  ℕ, ◌≡◌, ◌≢◌, refl, sym, if◌then◌else◌, update, ==-at, ==-off, subst, ℕ_discrete, arith,
}
use hotpathcplusplus.Locks.Futex.{
  Pc, idle, waiting, sleeping, retrying, holding, waking, Mutex, move, exchange_two,
  compare_exchange, exchange_zero, Step, lock, spin_free, spin_taken, attempt, attempt_spurious,
  spin_end, contend_first, contend_again, sleep, not_two, return_early, retry, unlock, wake,
  wake_nobody, Reach, start, step,
}

-- The word is 0 exactly if there is no holder, and there is at most one.
pub record Held (m : Mutex) : Type 0 where
  pub unique : (i j : ℕ) → m.pc i ≡ holding → m.pc j ≡ holding → i ≡ j
  pub free : (i : ℕ) → m.pc i ≡ holding → m.state ≢ 0
  pub taken : m.state ≢ 0 → (i : ℕ) × (m.pc i ≡ holding)

-- a thread that comes into the lock
acquire-Held :
    (m : Mutex) (i word : ℕ) → m.state ≡ 0 → word ≢ 0 → Held m → Held (move m i word holding)
unfolding move
acquire-Held m i word e w v = record {
  unique = λ j k p q. ground (arith, v.free j, v.free k);
  free = λ j p. w;
  taken = λ _. (i, ground arith);
}

-- a thread that moves outside the lock
shift-Held :
    (m : Mutex) (i word : ℕ) (p : Pc)
    → m.pc i ≢ holding
    → p ≢ holding
    → (m.state ≢ 0 → word ≢ 0)
    → (m.state ≡ 0 → word ≡ 0)
    → Held m
    → Held (move m i word p)
unfolding move
shift-Held m i word p out out' up down v = record {
  unique = λ j k a b. ground (arith, v.unique j k);
  free = λ j a. up (v.free j (ground arith));
  taken = λ w. let (j, h) = v.taken (λ e. w (down e)) in (j, ground arith);
}

stay-Held :
    (m : Mutex) (i : ℕ) (p : Pc)
    → m.pc i ≢ holding
    → p ≢ holding
    → Held m
    → Held (move m i m.state p)
stay-Held m i p out out' v = shift-Held m i m.state p out out' (λ w. w) (λ e. e) v

exchange_two-Held : (m : Mutex) (i : ℕ) → m.pc i ≢ holding → Held m → Held (exchange_two m i)
unfolding exchange_two move
exchange_two-Held m i out v = elim (ℕ_discrete m.state 0) [
  | yes e ↦
      subst (λ b. Held (move m i 2 (if b then holding else waiting))) (sym (==-at e))
        (acquire-Held m i 2 e (λ q. absurd (ground arith)) v)
  | no w ↦
      subst (λ b. Held (move m i 2 (if b then holding else waiting))) (sym (==-off w))
        (shift-Held m i 2 waiting out (λ q. absurd (ground arith)) (λ _. ground arith)
          (λ e. absurd (w e)) v)
]

compare_exchange-Held :
    (m : Mutex) (i : ℕ) (p : Pc)
    → m.pc i ≢ holding
    → p ≢ holding
    → Held m
    → Held (compare_exchange m i p)
unfolding compare_exchange move
compare_exchange-Held m i p out out' v = elim (ℕ_discrete m.state 0) [
  | yes e ↦
      subst (λ b. Held (if b then move m i 1 holding else move m i m.state p)) (sym (==-at e))
        (acquire-Held m i 1 e (λ q. absurd (ground arith)) v)
  | no w ↦
      subst (λ b. Held (if b then move m i 1 holding else move m i m.state p)) (sym (==-off w))
        (stay-Held m i p out out' v)
]

exchange_zero-Held : (m : Mutex) (i : ℕ) → m.pc i ≡ holding → Held m → Held (exchange_zero m i)
unfolding exchange_zero move
exchange_zero-Held m i h v = record {
  unique = λ j k a b. ground (arith, v.unique i j, v.unique i k);
  free = λ j a. ground (arith, v.unique i j);
  taken = λ w. absurd (w refl);
}

wake-Held :
    (m : Mutex) (i j : ℕ)
    → m.pc i ≡ waking
    → m.pc j ≡ sleeping
    → Held m
    → Held (record m { pc = update (update m.pc i idle) j retrying })
wake-Held m i j e f v = record {
  unique = λ k l a b. ground (arith, v.unique k l);
  free = λ k a. v.free k (ground arith);
  taken = λ w. let (k, h) = v.taken w in (k, ground arith);
}

Step-Held : {limit : ℕ} {m n : Mutex} → Step limit m n → Held m → Held n
Step-Held {m = m} (lock i e) v =
    compare_exchange-Held m i _ (λ h. ground arith) (λ h. ground arith) v
Step-Held {m = m} (spin_free i k c e b z) v =
    stay-Held m i _ (λ h. ground arith) (λ h. ground arith) v
Step-Held {m = m} (spin_taken i k c e b z) v =
    stay-Held m i _ (λ h. ground arith) (λ h. ground arith) v
Step-Held {m = m} (attempt i k e) v =
    compare_exchange-Held m i _ (λ h. ground arith) (λ h. ground arith) v
Step-Held {m = m} (attempt_spurious i k e z) v =
    stay-Held m i _ (λ h. ground arith) (λ h. ground arith) v
Step-Held {m = m} (spin_end i k c e b) v = stay-Held m i _ (λ h. ground arith) (λ h. ground arith) v
Step-Held {m = m} (contend_first i c e w) v = exchange_two-Held m i (λ h. ground arith) v
Step-Held {m = m} (contend_again i e) v = stay-Held m i _ (λ h. ground arith) (λ h. ground arith) v
Step-Held {m = m} (sleep i e z) v = stay-Held m i _ (λ h. ground arith) (λ h. ground arith) v
Step-Held {m = m} (not_two i e z) v = stay-Held m i _ (λ h. ground arith) (λ h. ground arith) v
Step-Held {m = m} (return_early i e) v = stay-Held m i _ (λ h. ground arith) (λ h. ground arith) v
Step-Held {m = m} (retry i e) v = exchange_two-Held m i (λ h. ground arith) v
Step-Held {m = m} (unlock i e) v = exchange_zero-Held m i e v
Step-Held {m = m} (wake i j e f) v = wake-Held m i j e f v
Step-Held {m = m} (wake_nobody i e none) v =
    stay-Held m i _ (λ h. ground arith) (λ h. ground arith) v

pub Reach-Held : {limit : ℕ} {m : Mutex} → Reach limit m → Held m
Reach-Held start = record {
  unique = λ i j a b. ground arith;
  free = λ i a. ground arith;
  taken = λ w. absurd (w refl);
}
Reach-Held (step r s) = Step-Held s (Reach-Held r)

-- Two threads never hold the lock at once, whatever bound on the spins and however their steps and
-- the spurious returns of the wait are mixed.
pub mutual_exclusion :
    {limit : ℕ} {m : Mutex} (i j : ℕ) → Reach limit m → m.pc i ≡ holding → m.pc j ≡ holding → i ≡ j
mutual_exclusion i j r a b = (Reach-Held r).unique i j a b
