-- ===== src/Ring/Backpressure.antt =====
-- The wait for readers in Reserve: whom it protects, whom it evicts, and when it ends.
use hotpathcplusplus.Base.{
  ℕ, ◌+◌, ◌-◌, ◌^◌, ◌≤◌, ◌<◌, ◌≡◌, sym, subst, ◌⊎◌, inl, inr, true, false, List, [], ◌∷◌, Option,
  some, All, ltb, leb, if◌then◌else◌, add64, sub64, arith, Bool-cases, some_inj,
}
use hotpathcplusplus.Status.{value}
use hotpathcplusplus.Ring.Types.{ReaderSlot, RingBuffer}
use hotpathcplusplus.Ring.Producer.{
  Round, Environment, visit_slot, visit_min, scan_readers, wait_for_readers, backpressure,
  required_space, claim, reserve,
}
use hotpathcplusplus.Ring.Refine.{reserve-Reserved}

-- Every active reader stands at `low` or later.
abbrev pub From : ℕ → List ReaderSlot → Type 0
From low = All (λ s. s.active ≡ true → low ≤ s.cursor)

From-weaken : (low low' : ℕ) (ss : List ReaderSlot) → low' ≤ low → From low ss → From low' ss
From-weaken low low' [] h f = tt
From-weaken low low' (s ∷ ss) h (f, fs) = (λ e. omega (arith, f e), From-weaken low low' ss h fs)

-- The scan's minimum is a lower bound for the readers that it leaves active.
scan_readers-From :
    (now timeout min_c : ℕ) (ss : List ReaderSlot)
    → ((scan_readers now timeout min_c ss).0 ≤ min_c)
      × From (scan_readers now timeout min_c ss).0 (scan_readers now timeout min_c ss).1
unfolding scan_readers visit_min visit_slot
scan_readers-From now timeout min_c [] = (omega arith, tt)
scan_readers-From now timeout min_c (s ∷ ss) =
    let (low, from) = scan_readers-From now timeout (visit_min now timeout min_c s) ss in
    (ground (arith, low), (λ e. ground (arith, low), from))

-- A roster and the roster after a scan, slot by slot.
abbrev pub Evicted : ℕ → ℕ → List ReaderSlot → List ReaderSlot → Type 0
Evicted now timeout [] [] = Unit
Evicted now timeout [] (t ∷ ts) = ⊥
Evicted now timeout (s ∷ ss) [] = ⊥
Evicted now timeout (s ∷ ss) (t ∷ ts) =
    ((t ≡ s) ⊎ (record {
      evicted : t ≡ record s { active = false };
      was : s.active ≡ true;
      late : timeout < now - s.heartbeat_ts;
    }))
    × Evicted now timeout ss ts

-- One pass over the roster leaves each slot as it is or makes it inactive, the latter only if the slot
-- was active and had not been heard of for longer than the timeout.
pub scan_readers-Evicted :
    (now timeout min_c : ℕ) (ss : List ReaderSlot)
    → Evicted now timeout ss (scan_readers now timeout min_c ss).1
unfolding scan_readers visit_slot
scan_readers-Evicted now timeout min_c [] = tt
scan_readers-Evicted now timeout min_c (s ∷ ss) =
    (visited s, scan_readers-Evicted now timeout (visit_min now timeout min_c s) ss)
  where
    visited :
        (s : ReaderSlot)
        → (visit_slot now timeout s ≡ s) ⊎ (record {
          evicted : visit_slot now timeout s ≡ record s { active = false };
          was : s.active ≡ true;
          late : timeout < now - s.heartbeat_ts;
        })
    visited s = ground arith

-- What the end of the wait promises of the minimum and the roster that it hands on.
abbrev Waited : ℕ → ℕ → ℕ × List ReaderSlot → Type 0
Waited capacity target p = (sub64 target p.0 ≤ capacity) × (p.0 ≤ target) × From p.0 p.1

round-Waited :
    (capacity target : ℕ) (p q : ℕ × List ReaderSlot) (rest : Option (ℕ × List ReaderSlot))
    → (p.0 ≤ target) × From p.0 p.1
    → (rest ≡ some q → Waited capacity target q)
    → (if leb (sub64 target p.0) capacity then some p else rest) ≡ some q
    → Waited capacity target q
round-Waited capacity target p q rest (low, from) again h =
    elim (Bool-cases (leb (sub64 target p.0) capacity)) [
      | inl near ↦
          subst (Waited capacity target) (some_inj (rw near at h)) (ground arith, low, from)
      | inr far ↦ again (rw far at h)
    ]

-- When the wait ends, the readers left active are within one buffer of the target.
wait_for_readers-Waited :
    (capacity target timeout now last_tsc : ℕ) (readers : List ReaderSlot) (rounds : List Round)
    (q : ℕ × List ReaderSlot)
    → wait_for_readers capacity target timeout now last_tsc readers rounds ≡ some q
    → Waited capacity target q
unfolding wait_for_readers
wait_for_readers-Waited capacity target timeout now last_tsc readers [] q h = cc
wait_for_readers-Waited capacity target timeout now last_tsc readers (round ∷ rounds) q h =
    let due = ltb 100000 (sub64 round.tsc last_tsc) in
    let now' : ℕ = if due then round.clock else now in
    let last' : ℕ = if due then round.tsc else last_tsc in
    let p = scan_readers now' timeout target (round.others readers) in
    round-Waited capacity target p q _
      (scan_readers-From now' timeout target (round.others readers))
      (wait_for_readers-Waited capacity target timeout now' last' p.1 rounds q) h

-- The cached minimum is not ahead of any active reader, nor of the producer.
pub record IsTracked (r : RingBuffer) : Type 0 where
  pub behind : r.cached_min_cursor ≤ r.header.producer_cursor
  pub tracked : From r.cached_min_cursor r.header.readers

backpressure-Waited :
    (r : RingBuffer) (target : ℕ) (env : Environment) (q : ℕ × List ReaderSlot)
    → IsTracked r
    → r.header.producer_cursor ≤ target
    → backpressure r target env ≡ some q
    → Waited r.capacity target q
unfolding backpressure
backpressure-Waited r target env q v low h =
    elim (Bool-cases (ltb r.capacity (sub64 target r.cached_min_cursor))) [
      | inl full ↦
          wait_for_readers-Waited r.capacity target r.evict_timeout_ns env.now env.tsc
            r.header.readers env.rounds q (rw full at h)
      | inr room ↦
          subst (Waited r.capacity target) (some_inj (rw room at h))
            (ground arith, omega (arith, v.behind), v.tracked)
    ]

-- No reader that Reserve leaves active is lapped: the claimed frame ends at most one buffer past
-- its cursor, so none of its unread bytes are overwritten. The cache stays a valid bound.
pub reserve-From :
    (r : RingBuffer) (n type_id : ℕ) (env : Environment) {a : ℕ} {r1 : RingBuffer}
    → IsTracked r
    → r.header.producer_cursor + required_space n < 2 ^ 64
    → reserve r n type_id env ≡ some (value a, r1)
    → IsTracked r1
      × (r1.header.producer_cursor ≡ r.header.producer_cursor + required_space n)
      × All
          (λ s. s.active ≡ true → r1.header.producer_cursor ≤ s.cursor + r.capacity)
          r1.header.readers
unfolding claim
reserve-From r n type_id env {a} {r1} v room h =
    let p = reserve-Reserved r n type_id env a r1 h in
    let target : add64 r.header.producer_cursor (required_space n)
        ≡ r.header.producer_cursor + required_space n =
      omega arith in
    let (near, low, from) =
      backpressure-Waited r _ env (p.min_c, p.readers) v (omega (arith, target)) p.waited in
    subst
      (λ x.
        IsTracked x
        × (x.header.producer_cursor ≡ r.header.producer_cursor + required_space n)
        × All (λ s. s.active ≡ true → x.header.producer_cursor ≤ s.cursor + r.capacity)
            x.header.readers)
      (sym p.claimed)
      (
        record { behind = low; tracked = from },
        target,
        within p.min_c _ p.readers (omega arith) from,
      )
  where
    within :
        (min_c target : ℕ) (ss : List ReaderSlot)
        → target ≤ min_c + r.capacity
        → From min_c ss
        → All (λ s. s.active ≡ true → target ≤ s.cursor + r.capacity) ss
    within min_c target [] near f = tt
    within min_c target (s ∷ ss) near (f, fs) =
        (λ e. omega (arith, f e), within min_c target ss near fs)
