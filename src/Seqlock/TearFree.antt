-- ===== src/Seqlock/TearFree.antt =====
-- RunRouteCacheTrial over the sequence lock never reports a torn read: the rounds bound the counter,
-- and the counter tells each reader whether its copy is whole.
use hotpathcplusplus.Base.{
  ℕ, ◌+◌, ◌-◌, ◌*◌, ◌≤◌, ◌<◌, ◌≡◌, ◌≢◌, refl, sym, subst, ◌∙◌, false, none, bit_and, ==-at, ==-off,
  ==-self, update, u64_mod, ℕ_discrete, arith,
}
use hotpathcplusplus.Base.Sums.{
  sum_below, sum_below-le, le-sum_below, sum_below-bump, sum_below-const,
}
use hotpathcplusplus.Seqlock.Trial.{
  Pc, between, updating, storing, unlocking, looking, copying, CacheTrial, look, look_again, IsDue,
  Step, start_update, store_odd, store_word, store_even, unlock, start_read, first_look, copy_word,
  second_look, Reach, start, step,
}
use hotpathcplusplus.Seqlock.Sound.{IsSound, Fits}
use hotpathcplusplus.Seqlock.Writes.{Step-IsSound, new_trial-IsSound}

-- the stores to the counter that a round has done, and those that a thread may still do
abbrev spent : Pc → ℕ
spent between = 0
spent (updating seq0 next) = 0
spent (storing seq0 next) = 1
spent unlocking = 2
spent looking = 0
spent (copying seq1 copy) = 0

abbrev left : ℕ → ℕ → Pc → ℕ
left ops round p = 2 * (ops + 1 - round) - spent p

module _ (num_threads ops : ℕ) where
  record HasRoom (seq : ℕ) (pc : ℕ → Pc) (round : ℕ → ℕ) : Type 0 where
    due : (t : ℕ) → pc t ≢ between → (t < num_threads) × (round t ≤ ops)
    room : seq + sum_below (λ t. left ops (round t) (pc t)) num_threads ≤ num_threads * (2 * ops)

  module _ (seq : ℕ) (pc : ℕ → Pc) (round : ℕ → ℕ) (t : ℕ) (p : Pc) (v : HasRoom seq pc round) where
    -- a thread moves on, and has no more stores left than before
    pass-HasRoom :
        (round' : ℕ → ℕ)
        → ((j : ℕ) → t ≢ j → round' j ≡ round j)
        → (p ≢ between → (t < num_threads) × (round' t ≤ ops))
        → left ops (round' t) p ≤ left ops (round t) (pc t)
        → HasRoom seq (update pc t p) round'
    pass-HasRoom round' same due less = record {
      due = λ j w. elim (ℕ_discrete t j) [
        | yes e ↦
            subst (λ k. (k < num_threads) × (round' k ≤ ops)) e (due (λ q. w (rw (==-at e) q)))
        | no d ↦ ground (arith, v.due j (λ q. w (rw (==-off d) q)), same j d)
      ];
      room = omega (
        arith,
        v.room,
        sum_below-le (λ j. left ops (round' j) (update pc t p j)) (λ j. left ops (round j) (pc j))
            num_threads
            (λ j. elim (ℕ_discrete t j) [
              | yes e ↦
                  rw (==-at e)
                    (subst (λ k. left ops (round' k) p ≤ left ops (round k) (pc k)) e less)
              | no d ↦ rw (==-off d) (rw (same j d) (omega arith))
            ]),
      );
    }

    -- a thread stores to the counter
    spend-HasRoom :
        t < num_threads
        → round t ≤ ops
        → left ops (round t) (pc t) ≡ left ops (round t) p + 1
        → HasRoom (seq + 1) (update pc t p) round
    spend-HasRoom lt le one = record {
      due = λ j w. elim (ℕ_discrete t j) [
        | yes e ↦ subst (λ k. (k < num_threads) × (round k ≤ ops)) e (lt, le)
        | no d ↦ v.due j (λ q. w (rw (==-off d) q))
      ];
      room = omega (
        arith,
        v.room,
        sum_below-bump (λ j. left ops (round j) (update pc t p j)) (λ j. left ops (round j) (pc j))
            num_threads t lt (rw (==-self t) one) (λ j d. rw (==-off d) refl),
      );
    }

module _ {num_threads ops : ℕ} (s : CacheTrial) (t : ℕ)
    (v : HasRoom num_threads ops s.seq s.pc s.round) where
  abbrev RoomFor : Pc → (ℕ → ℕ) → Type 0
  RoomFor p round = HasRoom num_threads ops s.seq (update s.pc t p) round

  -- a thread in a round goes on within it
  within : (p p' : Pc) → s.pc t ≡ p → p ≢ between → spent p ≤ spent p' → RoomFor p' s.round
  within p p' e busy more =
      pass-HasRoom num_threads ops s.seq s.pc s.round t p' v s.round (λ j d. refl)
        (λ w. v.due t (λ q. busy (sym e ∙ q))) (rw e (omega (arith, more)))

  -- a thread begins a round
  begins : (p : Pc) → IsDue num_threads ops s t → RoomFor p s.round
  begins p (at, below, more) =
      pass-HasRoom num_threads ops s.seq s.pc s.round t p v s.round (λ j d. refl)
        (λ w. (below, more)) (rw at (omega arith))

  -- a thread ends its round
  ends :
      (p : Pc)
      → s.pc t ≡ p
      → p ≢ between
      → spent p ≤ 2
      → RoomFor between (update s.round t (s.round t + 1))
  ends p e busy few =
      let (below, more) = v.due t (λ q. busy (sym e ∙ q)) in
      pass-HasRoom num_threads ops s.seq s.pc s.round t between v (update s.round t (s.round t + 1))
        (λ j d. rw (==-off d) refl) (λ w. absurd (w refl))
        (rw (e, ==-self t) (omega (arith, few, more)))

  stores :
      (p p' : Pc)
      → s.pc t ≡ p
      → p ≢ between
      → spent p' ≡ spent p + 1
      → spent p' ≤ 2
      → HasRoom num_threads ops (s.seq + 1) (update s.pc t p') s.round
  stores p p' e busy one few =
      let (below, more) = v.due t (λ q. busy (sym e ∙ q)) in
      spend-HasRoom num_threads ops s.seq s.pc s.round t p' v below more
        (rw e (omega (arith, one, few, more)))

Step-HasRoom :
    {num_threads ops : ℕ} {s u : CacheTrial}
    → Step num_threads ops s u
    → IsSound s
    → HasRoom num_threads ops s.seq s.pc s.round
    → HasRoom num_threads ops u.seq u.pc u.round
unfolding look look_again
Step-HasRoom {s = s} (start_update t due hundredth free) i v = begins s t v _ due
Step-HasRoom {num_threads = n} {ops = o} {s = s} (store_odd t seq0 next e) i v =
    let (own, same, even, room, whole) = subst (Fits s.owner s.seq s.payload t) e (i.fits t) in
    subst (λ c. HasRoom n o c (update s.pc t (storing seq0 next)) s.round) (omega arith)
      (stores s t v (updating seq0 next) (storing seq0 next) e (λ q. cc) refl (omega arith))
Step-HasRoom {s = s} (store_word t seq0 w next e) i v = v
Step-HasRoom {num_threads = n} {ops = o} {s = s} (store_even t seq0 next e stored) i v =
    let (own, same, even, room, whole) = subst (Fits s.owner s.seq s.payload t) e (i.fits t) in
    subst (λ c. HasRoom n o c (update s.pc t unlocking) s.round) (omega arith)
      (stores s t v (storing seq0 next) unlocking e (λ q. cc) refl (omega arith))
Step-HasRoom {s = s} (unlock t e) i v = ends s t v unlocking e (λ q. cc) (omega arith)
Step-HasRoom {s = s} (start_read t due other) i v = begins s t v looking due
Step-HasRoom {s = s} (first_look t e) i v = elim (ℕ_discrete (bit_and s.seq 1) 0) [
  | yes q ↦
      rw (==-at q) (within s t v looking (copying s.seq (λ w. none)) e (λ z. cc) (omega arith))
  | no d ↦ rw (==-off d) (within s t v looking looking e (λ z. cc) (omega arith))
]
Step-HasRoom {s = s} (copy_word t seq1 w copy e) i v =
    within s t v (copying seq1 copy) _ e (λ q. cc) (omega arith)
Step-HasRoom {s = s} (second_look t seq1 copy snap e all) i v = elim (ℕ_discrete seq1 s.seq) [
  | yes q ↦ rw (==-at q) (ends s t v (copying seq1 copy) e (λ z. cc) (omega arith))
  | no d ↦ rw (==-off d) (within s t v (copying seq1 copy) looking e (λ z. cc) (omega arith))
]

-- A thread that has a round to do can still store twice.
room_for_update :
    {num_threads ops : ℕ} (s : CacheTrial) (t : ℕ)
    → num_threads * (2 * ops) < u64_mod
    → HasRoom num_threads ops s.seq s.pc s.round
    → IsDue num_threads ops s t
    → s.seq + 2 < u64_mod
room_for_update {num_threads = n} {ops = o} s t bound v (at, below, more) =
    let two = le-sum_below (λ j. left o (s.round j) (s.pc j)) n t below in
    let left_two : left o (s.round t) (s.pc t) ≡ 2 * (o + 1 - s.round t) = rw at (omega arith) in
    omega (arith, bound, v.room, two, left_two, more)

Reach-IsSound :
    {num_threads ops : ℕ} {s : CacheTrial}
    → num_threads * (2 * ops) < u64_mod
    → Reach num_threads ops s
    → IsSound s × HasRoom num_threads ops s.seq s.pc s.round
Reach-IsSound {num_threads = n} {ops = o} bound start = (
  new_trial-IsSound,
  record {
    due = λ t w. absurd (w refl);
    room = omega (arith, sum_below-const (λ t. left o 1 between) n (2 * o) (λ t lt. omega arith));
  },
)
Reach-IsSound bound (step {s = s} r st) =
    let (i, v) = Reach-IsSound bound r in
    (Step-IsSound st (λ t due. room_for_update s t bound v due) i, Step-HasRoom st i v)

-- However many threads write and read the cache, in whatever order their loads and stores are mixed
-- and in whatever order memcpy moves the words, no read of the trial sees a quota that does not belong
-- to its version. Atomics are sequentially consistent, and the number of all rounds is below 2 ^ 63.
pub torn_detected_lem :
    {num_threads ops : ℕ} {s : CacheTrial}
    → num_threads * (2 * ops) < u64_mod
    → Reach num_threads ops s
    → s.torn_detected ≡ false
torn_detected_lem bound r = (Reach-IsSound bound r).0.quiet
