-- ===== src/Locks/Live.antt =====
-- That no step of a lock waits for another thread but the taking of the lock: the spinlocks and the
-- three-state mutexes have a step for every thread at every place.
use hotpathcplusplus.Base.{
  ℕ, zero, suc, ap, ◌∙◌, ◌+◌, ◌<◌, ◌≡◌, ◌≢◌, refl, sym, subst, ◌⊎◌, inl, inr, Bool-cases,
  ℕ_discrete, dec_lt, arith,
}
use hotpathcplusplus.Locks.Futex
use hotpathcplusplus.Locks.Spin
use hotpathcplusplus.Locks.Machine.{
  Label, calls, releases, other, LockMachine, Runs, start, step, spin_label, spin_lock, futex_label,
  futex_mutex,
}

-- A step of a machine with its label.
abbrev pub Labelled : (k : LockMachine) → k.State → Label → Type 0
Labelled k m l = (n : k.State) × (s : k.Step m n) × (k.label m n s ≡ l)

pub record IsLive (k : LockMachine) : Type 0 where
  pub leaves : (m : k.State) (i : ℕ) → k.Holding m i → Labelled k m (releases i)
  pub goes :
      (m : k.State) (i : ℕ)
      → Runs k m
      → k.Holding m i ⊎ (Labelled k m (calls i) ⊎ Labelled k m other)

spin_goes :
    (k : Spin.Lock) (m : Spin.SpinLock) (i : ℕ) (p : Spin.Pc)
    → m.pc i ≡ p
    → (m.pc i ≡ Spin.holding)
      ⊎ (Labelled (spin_lock k) m (calls i) ⊎ Labelled (spin_lock k) m other)
unfolding spin_label
spin_goes k m i Spin.Pc.idle e = inr (inl (_, Spin.Step.lock i e, refl))
spin_goes k m i Spin.Pc.loading e = elim (Bool-cases m.locked) [
  | inl t ↦ inr (inr (_, Spin.Step.load_set i e t, refl))
  | inr f ↦ inr (inr (_, Spin.Step.load_clear i e f, refl))
]
spin_goes k m i Spin.Pc.taking e = elim (Bool-cases m.locked) [
  | inl t ↦ inr (inr (_, Spin.Step.fail i e t, refl))
  | inr f ↦ inr (inr (_, Spin.Step.take i e f, refl))
]
spin_goes k m i Spin.Pc.polling e = elim (Bool-cases m.locked) [
  | inl t ↦ inr (inr (_, Spin.Step.poll_set i e t, refl))
  | inr f ↦ inr (inr (_, Spin.Step.poll_clear i e f, refl))
]
spin_goes k m i Spin.Pc.holding e = inl e

-- A thread at a spinlock always has a step, and a holder can give it up.
pub spin_lock-IsLive : (k : Spin.Lock) → IsLive (spin_lock k)
unfolding spin_label
spin_lock-IsLive k = record {
  leaves = λ m i h. (_, Spin.Step.unlock i h, refl);
  goes = λ m i r. spin_goes k m i (m.pc i) refl;
}

sleeping_cases : (p : Futex.Pc) → (p ≡ Futex.sleeping) ⊎ (p ≢ Futex.sleeping)
sleeping_cases Futex.Pc.sleeping = inl refl
sleeping_cases Futex.Pc.idle = inr (λ e. cc)
sleeping_cases (Futex.Pc.spinning k c) = inr (λ e. cc)
sleeping_cases (Futex.Pc.attempting k) = inr (λ e. cc)
sleeping_cases (Futex.Pc.contended c) = inr (λ e. cc)
sleeping_cases Futex.Pc.waiting = inr (λ e. cc)
sleeping_cases Futex.Pc.retrying = inr (λ e. cc)
sleeping_cases Futex.Pc.holding = inr (λ e. cc)
sleeping_cases Futex.Pc.waking = inr (λ e. cc)

-- A step touches no thread above a bound.
futex_touches :
    {limit : ℕ} {m n : Futex.Mutex}
    → Futex.Step limit m n
    → (b : ℕ) × ((j : ℕ) → b < j → m.pc j ≡ n.pc j)
unfolding Futex.move Futex.compare_exchange Futex.exchange_two Futex.exchange_zero
futex_touches (Futex.Step.lock i e) = (i, λ j h. ground arith)
futex_touches (Futex.Step.spin_free i k c e b z) = (i, λ j h. ground arith)
futex_touches (Futex.Step.spin_taken i k c e b z) = (i, λ j h. ground arith)
futex_touches (Futex.Step.attempt i k e) = (i, λ j h. ground arith)
futex_touches (Futex.Step.attempt_spurious i k e z) = (i, λ j h. ground arith)
futex_touches (Futex.Step.spin_end i k c e b) = (i, λ j h. ground arith)
futex_touches (Futex.Step.contend_first i c e z) = (i, λ j h. ground arith)
futex_touches (Futex.Step.contend_again i e) = (i, λ j h. ground arith)
futex_touches (Futex.Step.sleep i e z) = (i, λ j h. ground arith)
futex_touches (Futex.Step.not_two i e z) = (i, λ j h. ground arith)
futex_touches (Futex.Step.return_early i e) = (i, λ j h. ground arith)
futex_touches (Futex.Step.retry i e) = (i, λ j h. ground arith)
futex_touches (Futex.Step.unlock i e) = (i, λ j h. ground arith)
futex_touches (Futex.Step.wake i l e f) = (i + l, λ j h. ground arith)
futex_touches (Futex.Step.wake_nobody i e z) = (i, λ j h. ground arith)

-- Only finitely many threads have left their first place.
idle_above :
    {limit : ℕ} {m : Futex.Mutex}
    → Runs (futex_mutex limit) m
    → (b : ℕ) × ((j : ℕ) → b < j → m.pc j ≡ Futex.idle)
idle_above start = (0, λ j h. refl)
idle_above (step r s) =
    let (b, before) = idle_above r in
    let (c, same) = futex_touches s in
    (b + c, λ j h. sym (same j (omega (arith, h))) ∙ before j (omega (arith, h)))

find_sleeper :
    (m : Futex.Mutex) (b : ℕ)
    → ((j : ℕ) × (m.pc j ≡ Futex.sleeping)) ⊎ ((j : ℕ) → j < b → m.pc j ≢ Futex.sleeping)
find_sleeper m zero = inr (λ j h. absurd (omega arith))
find_sleeper m (suc b) = elim (sleeping_cases (m.pc b)) [
  | inl e ↦ inl (b, e)
  | inr w ↦ elim (find_sleeper m b) [
    | inl found ↦ inl found
    | inr none ↦ inr (λ j h. elim (ℕ_discrete j b) [
      | yes q ↦ subst (λ l. m.pc l ≢ Futex.sleeping) (sym q) w
      | no d ↦ none j (omega (arith, h, d))
    ])
  ]
]

wakes :
    {limit : ℕ} (m : Futex.Mutex) (i : ℕ)
    → Runs (futex_mutex limit) m
    → m.pc i ≡ Futex.waking
    → Labelled (futex_mutex limit) m other
unfolding futex_label
wakes m i r e =
    let (b, above) = idle_above r in
    elim (find_sleeper m (suc b)) [
      | inl (j, asleep) ↦ (_, Futex.Step.wake i j e asleep, refl)
      | inr awake ↦ (
        _,
        Futex.Step.wake_nobody i e (λ j q. elim (dec_lt b j) [
          | yes h ↦ absurd (cc (sym (above j h) ∙ q))
          | no h ↦ awake j (omega (arith, h)) q
        ]),
        refl,
      )
    ]

futex_goes :
    {limit : ℕ} (m : Futex.Mutex) (i : ℕ) (p : Futex.Pc)
    → Runs (futex_mutex limit) m
    → m.pc i ≡ p
    → (m.pc i ≡ Futex.holding)
      ⊎ (Labelled (futex_mutex limit) m (calls i) ⊎ Labelled (futex_mutex limit) m other)
unfolding futex_label
futex_goes m i Futex.Pc.idle r e = inr (inl (_, Futex.Step.lock i e, refl))
futex_goes {limit} m i (Futex.Pc.spinning k c) r e = elim (dec_lt k limit) [
  | no out ↦ inr (inr (_, Futex.Step.spin_end i k c e (omega (arith, out)), refl))
  | yes in_bound ↦ elim (ℕ_discrete m.state 0) [
    | yes z ↦ inr (inr (_, Futex.Step.spin_free i k c e in_bound z, refl))
    | no w ↦ inr (inr (_, Futex.Step.spin_taken i k c e in_bound w, refl))
  ]
]
futex_goes m i (Futex.Pc.attempting k) r e = inr (inr (_, Futex.Step.attempt i k e, refl))
futex_goes m i (Futex.Pc.contended c) r e = elim (ℕ_discrete c 2) [
  | yes q ↦ inr (inr (_, Futex.Step.contend_again i (e ∙ ap Futex.Pc.contended q), refl))
  | no w ↦ inr (inr (_, Futex.Step.contend_first i c e w, refl))
]
futex_goes m i Futex.Pc.waiting r e = elim (ℕ_discrete m.state 2) [
  | yes q ↦ inr (inr (_, Futex.Step.sleep i e q, refl))
  | no w ↦ inr (inr (_, Futex.Step.not_two i e w, refl))
]
futex_goes m i Futex.Pc.sleeping r e = inr (inr (_, Futex.Step.return_early i e, refl))
futex_goes m i Futex.Pc.retrying r e = inr (inr (_, Futex.Step.retry i e, refl))
futex_goes m i Futex.Pc.holding r e = inl e
futex_goes m i Futex.Pc.waking r e = inr (inr (wakes m i r e))

-- So it is at a three-state mutex, where a sleeper's wait may return at any time.
pub futex_mutex-IsLive : (limit : ℕ) → IsLive (futex_mutex limit)
unfolding futex_label
futex_mutex-IsLive limit = record {
  leaves = λ m i h. (_, Futex.Step.unlock i h, refl);
  goes = λ m i r. futex_goes m i (m.pc i) r refl;
}
