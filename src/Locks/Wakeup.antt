-- ===== src/Locks/Wakeup.antt =====
-- No wakeup is lost: a thread that sleeps in the kernel is owed a wake by somebody.
use hotpathcplusplus.Base.{
  ℕ, ◌≡◌, ◌≢◌, refl, sym, ◌⊎◌, inl, inr, if◌then◌else◌, update, ==-at, ==-off, subst, ℕ_discrete,
  arith,
}
use hotpathcplusplus.Locks.Futex.{
  Pc, idle, sleeping, retrying, holding, waking, Mutex, move, exchange_two, compare_exchange,
  exchange_zero, Step, lock, spin_free, spin_taken, attempt, attempt_spurious, spin_end,
  contend_first, contend_again, sleep, not_two, return_early, retry, unlock, wake, wake_nobody,
  Reach, start, step,
}
use hotpathcplusplus.Locks.Exclusion.{Reach-Held}

-- Somebody is about to wake a sleeper, or to store 2 again.
Owed : Mutex → Type 0
Owed m = (k : ℕ) × ((m.pc k ≡ waking) ⊎ (m.pc k ≡ retrying))

Woken : Mutex → Type 0
Woken m = (j : ℕ) → m.pc j ≡ sleeping → (m.state ≡ 2) ⊎ Owed m

-- a thread that does not give up a wake that it owes
stay-Woken :
    (m : Mutex) (i word : ℕ) (p : Pc)
    → m.pc i ≢ waking
    → m.pc i ≢ retrying
    → (p ≡ sleeping → m.state ≡ 2)
    → (m.state ≡ 2 → word ≡ 2)
    → Woken m
    → Woken (move m i word p)
unfolding move Woken Owed
stay-Woken m i word p a b s w v j e = elim (ℕ_discrete i j) [
  | yes q ↦ inl (w (s (ground arith)))
  | no q ↦ elim (v j (ground arith)) [
    | inl h ↦ inl (w h)
    | inr (k, inl h) ↦ inr (k, inl (ground arith))
    | inr (k, inr h) ↦ inr (k, inr (ground arith))
  ]
]

exchange_two-Woken : (m : Mutex) (i : ℕ) → Woken (exchange_two m i)
unfolding exchange_two move Woken
exchange_two-Woken m i j e = inl refl

compare_exchange-Woken :
    (m : Mutex) (i : ℕ) (p : Pc)
    → m.pc i ≢ waking
    → m.pc i ≢ retrying
    → p ≢ sleeping
    → Woken m
    → Woken (compare_exchange m i p)
unfolding compare_exchange
compare_exchange-Woken m i p a b s v = elim (ℕ_discrete m.state 0) [
  | yes e ↦
      subst (λ c. Woken (if c then move m i 1 holding else move m i m.state p)) (sym (==-at e))
        (stay-Woken m i 1 holding a b (λ q. ground arith) (λ q. ground arith) v)
  | no w ↦
      subst (λ c. Woken (if c then move m i 1 holding else move m i m.state p)) (sym (==-off w))
        (stay-Woken m i m.state p a b (λ q. absurd (s q)) (λ q. q) v)
]

-- The thread that stores 0 over 2 owes a wake from then on.
exchange_zero-Woken : (m : Mutex) (i : ℕ) → m.pc i ≡ holding → Woken m → Woken (exchange_zero m i)
unfolding exchange_zero move Woken Owed
exchange_zero-Woken m i h v j e = elim (ℕ_discrete m.state 2) [
  | yes q ↦ inr (i, inl (ground arith))
  | no q ↦ elim (v j (ground arith)) [
    | inl g ↦ absurd (q g)
    | inr (k, inl g) ↦ inr (k, inl (ground arith))
    | inr (k, inr g) ↦ inr (k, inr (ground arith))
  ]
]

-- A sleeper that returns by itself stores 2 next.
return_early-Woken :
    (m : Mutex) (i : ℕ) → m.pc i ≡ sleeping → Woken m → Woken (move m i m.state retrying)
unfolding move Woken Owed
return_early-Woken m i f v j e = inr (i, inr (ground arith))

wake-Woken :
    (m : Mutex) (i j : ℕ)
    → m.pc j ≡ sleeping
    → Woken (record m { pc = update (update m.pc i idle) j retrying })
unfolding Woken Owed
wake-Woken m i j f l e = inr (j, inr (ground arith))

wake_nobody-Woken :
    (m : Mutex) (i : ℕ) → ((j : ℕ) → m.pc j ≢ sleeping) → Woken (move m i m.state idle)
unfolding move Woken
wake_nobody-Woken m i nobody j e = absurd (nobody j (ground arith))

Step-Woken : {limit : ℕ} {m n : Mutex} → Step limit m n → Woken m → Woken n
Step-Woken {m = m} (lock i e) v =
    compare_exchange-Woken m i _ (λ h. ground arith) (λ h. ground arith) (λ h. ground arith) v
Step-Woken {m = m} (spin_free i k c e b z) v =
    stay-Woken m i _ _ (λ h. ground arith) (λ h. ground arith) (λ h. ground arith) (λ h. h) v
Step-Woken {m = m} (spin_taken i k c e b z) v =
    stay-Woken m i _ _ (λ h. ground arith) (λ h. ground arith) (λ h. ground arith) (λ h. h) v
Step-Woken {m = m} (attempt i k e) v =
    compare_exchange-Woken m i _ (λ h. ground arith) (λ h. ground arith) (λ h. ground arith) v
Step-Woken {m = m} (attempt_spurious i k e z) v =
    stay-Woken m i _ _ (λ h. ground arith) (λ h. ground arith) (λ h. ground arith) (λ h. h) v
Step-Woken {m = m} (spin_end i k c e b) v =
    stay-Woken m i _ _ (λ h. ground arith) (λ h. ground arith) (λ h. ground arith) (λ h. h) v
Step-Woken {m = m} (contend_first i c e w) v = exchange_two-Woken m i
Step-Woken {m = m} (contend_again i e) v =
    stay-Woken m i _ _ (λ h. ground arith) (λ h. ground arith) (λ h. ground arith) (λ h. h) v
Step-Woken {m = m} (sleep i e z) v =
    stay-Woken m i _ _ (λ h. ground arith) (λ h. ground arith) (λ _. z) (λ h. h) v
Step-Woken {m = m} (not_two i e z) v =
    stay-Woken m i _ _ (λ h. ground arith) (λ h. ground arith) (λ h. ground arith) (λ h. h) v
Step-Woken {m = m} (return_early i e) v = return_early-Woken m i e v
Step-Woken {m = m} (retry i e) v = exchange_two-Woken m i
Step-Woken {m = m} (unlock i e) v = exchange_zero-Woken m i e v
Step-Woken {m = m} (wake i j e f) v = wake-Woken m i j f
Step-Woken {m = m} (wake_nobody i e nobody) v = wake_nobody-Woken m i nobody

Reach-Woken : {limit : ℕ} {m : Mutex} → Reach limit m → Woken m
unfolding Woken
Reach-Woken start = λ j e. ground arith
Reach-Woken (step r s) = Step-Woken s (Reach-Woken r)

-- While a thread sleeps in the kernel, some thread holds the lock, is about to wake a sleeper, or is
-- about to store 2 again: no wakeup is lost, under any bound on the spins.
pub sleeper_is_owed :
    {limit : ℕ} {m : Mutex} (j : ℕ)
    → Reach limit m
    → m.pc j ≡ sleeping
    → (k : ℕ) × ((m.pc k ≡ holding) ⊎ ((m.pc k ≡ waking) ⊎ (m.pc k ≡ retrying)))
unfolding Woken Owed
sleeper_is_owed j r e = elim (Reach-Woken r j e) [
  | inl two ↦ let (k, h) = (Reach-Held r).taken (ground arith) in (k, inl h)
  | inr (k, h) ↦ (k, inr h)
]
