-- ===== src/Ring/Progress.antt =====
-- When Reserve's wait for readers ends, and that Reserve then succeeds.
use hotpathcplusplus.Base.{
  ℕ, ◌+◌, ◌-◌, ◌%◌, ◌^◌, ◌≤◌, ◌<◌, ◌≡◌, refl, ◌⊎◌, inl, inr, Bool, true, false, List, [], ◌∷◌,
  Option, some, All, ltb, leb, if◌then◌else◌, add64, sub64, arith, Bool-cases,
}
use hotpathcplusplus.Status.{value}
use hotpathcplusplus.Ring.Types.{ReaderSlot, RingBuffer, frame_header_size}
use hotpathcplusplus.Ring.Producer.{
  Round, Environment, visit_min, scan_readers, wait_for_readers, backpressure, required_space,
  claim, reserve,
}

-- No active reader of the roster holds the producer back: each one either stands within a buffer of
-- the target or has not been heard of for longer than the timeout.
abbrev pub IsClear : ℕ → ℕ → ℕ → ℕ → List ReaderSlot → Type 0
IsClear capacity target timeout now =
    All (λ s. s.active ≡ true → ((target ≤ s.cursor + capacity) ⊎ (timeout < now - s.heartbeat_ts)))

-- One of the rounds finds the roster clear.
abbrev pub Clears : ℕ → ℕ → ℕ → ℕ → ℕ → List ReaderSlot → List Round → Type 0
Clears capacity target timeout now last_tsc readers [] = ⊥
Clears capacity target timeout now last_tsc readers (round ∷ rounds) =
    let due = ltb 100000 (sub64 round.tsc last_tsc) in
    let now' = if due then round.clock else now in
    let last' = if due then round.tsc else last_tsc in
    IsClear capacity target timeout now' (round.others readers)
    ⊎ Clears capacity target timeout now' last'
        (scan_readers now' timeout target (round.others readers)).1 rounds

scan_readers-IsClear :
    (capacity target timeout now min_c : ℕ) (ss : List ReaderSlot)
    → min_c ≤ target
    → target ≤ min_c + capacity
    → IsClear capacity target timeout now ss
    → ((scan_readers now timeout min_c ss).0 ≤ target)
      × (target ≤ (scan_readers now timeout min_c ss).0 + capacity)
unfolding scan_readers visit_min
scan_readers-IsClear capacity target timeout now min_c [] low near c = (low, near)
scan_readers-IsClear capacity target timeout now min_c (s ∷ ss) low near (c, cs) =
    scan_readers-IsClear capacity target timeout now (visit_min now timeout min_c s) ss
      (ground arith) (ground (arith, c)) cs

if_some {ℓ} :
    {A : Type ℓ} (b : Bool) (p : A) (rest : Option A)
    → (b ≡ true) ⊎ ((q : A) × (rest ≡ some q))
    → (q : A) × ((if b then some p else rest) ≡ some q)
if_some true p rest h = (p, refl)
if_some false p rest (inl e) = absurd (ground arith)
if_some false p rest (inr h) = h

wait_for_readers-Clears :
    (capacity target timeout now last_tsc : ℕ) (readers : List ReaderSlot) (rounds : List Round)
    → target < 2 ^ 64
    → Clears capacity target timeout now last_tsc readers rounds
    → (q : ℕ × List ReaderSlot) × (wait_for_readers capacity target timeout now last_tsc readers
          rounds
        ≡ some q)
unfolding wait_for_readers
wait_for_readers-Clears capacity target timeout now last_tsc readers [] small h = absurd h
wait_for_readers-Clears capacity target timeout now last_tsc readers (round ∷ rounds) small
      (inl c) =
    let due = ltb 100000 (sub64 round.tsc last_tsc) in
    let now' : ℕ = if due then round.clock else now in
    let (low, near) =
      scan_readers-IsClear capacity target timeout now' target (round.others readers) (omega arith)
        (omega arith) c in
    let p = scan_readers now' timeout target (round.others readers) in
    if_some (leb (sub64 target p.0) capacity) p _ (inl (ground (arith, low, near)))
wait_for_readers-Clears capacity target timeout now last_tsc readers (round ∷ rounds) small
      (inr c) =
    let due = ltb 100000 (sub64 round.tsc last_tsc) in
    let now' : ℕ = if due then round.clock else now in
    let last' : ℕ = if due then round.tsc else last_tsc in
    if_some _ _ _ (
      inr (
        wait_for_readers-Clears capacity target timeout now' last'
          (scan_readers now' timeout target (round.others readers)).1 rounds small c))

-- A producer whose frame fits the buffer gets it as soon as one round of the wait finds every active
-- reader near enough or past its timeout: Reserve returns, and with an address.
pub reserve-Clears :
    (r : RingBuffer) (n type_id : ℕ) (env : Environment)
    → r.is_producer ≡ true
    → required_space n ≤ r.capacity
    → Clears r.capacity
        (add64 r.header.producer_cursor (required_space n))
        r.evict_timeout_ns
        env.now
        env.tsc
        r.header.readers
        env.rounds
    → (a : ℕ) × (r1 : RingBuffer) × (reserve r n type_id env ≡ some (value a, r1))
unfolding reserve backpressure
reserve-Clears r n type_id env producer fits c =
    let target = add64 r.header.producer_cursor (required_space n) in
    let ((m, rs), e) =
      wait_for_readers-Clears r.capacity target r.evict_timeout_ns env.now env.tsc r.header.readers
        env.rounds (omega arith) c in
    let a = r.header.producer_cursor % r.capacity + frame_header_size in
    elim (Bool-cases (ltb r.capacity (sub64 target r.cached_min_cursor))) [
      | inl full ↦ (a, claim r n type_id target env.stamp m rs, ground (arith, e))
      | inr room ↦
          (a, claim r n type_id target env.stamp r.cached_min_cursor r.header.readers, ground arith)
    ]
