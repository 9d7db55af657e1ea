-- ===== src/Ebr/Drain.antt =====
-- What a collection frees: each node once, and everything that a thread has retired after two
-- collections with no reader announced.
use hotpathcplusplus.Base.{
  ℕ, suc, ◌+◌, ◌≤◌, ◌<◌, ◌≡◌, refl, sym, ap, subst, ◌∙◌, inl, inr, true, List, [], ◌∷◌, ◌++◌, some,
  All, ltb, update, count, arith, Bool-cases, ==-self,
}
use hotpathcplusplus.Ebr.Engine.{Batch, ThreadControlBlock, Ebr, scan_step, min_epoch, sweep, gc}

-- how often a node stands in batches
abbrev pub count_batches : ℕ → List Batch → ℕ
count_batches n [] = 0
count_batches n (b ∷ bs) = count n b.nodes + count_batches n bs

count-append : (n : ℕ) (xs ys : List ℕ) → count n (xs ++ ys) ≡ count n xs + count n ys
count-append n [] ys = omega arith
count-append n (x ∷ xs) ys = omega (arith, count-append n xs ys)

count-sweep :
    (n m : ℕ) (bs : List Batch)
    → count n (sweep m bs).0 + count_batches n (sweep m bs).1 ≡ count_batches n bs
unfolding sweep
count-sweep n m [] = omega arith
count-sweep n m (b ∷ bs) = ground (arith, count-sweep n m bs, count-append n b.nodes (sweep m bs).0)

sweep-All :
    (P : ℕ → Type 0) (m : ℕ) (bs : List Batch)
    → All (λ b. P b.epoch) bs
    → All (λ b. P b.epoch) (sweep m bs).1
unfolding sweep
sweep-All P m [] h = tt
sweep-All P m (b ∷ bs) (h, hs) = elim (Bool-cases (ltb b.epoch m)) [
  | inl old ↦ rw old (sweep-All P m bs hs)
  | inr new ↦ rw new (h, sweep-All P m bs hs)
]

sweep_old : (m : ℕ) (bs : List Batch) → All (λ b. b.epoch < m) bs → (sweep m bs).1 ≡ []
unfolding sweep
sweep_old m [] h = refl
sweep_old m (b ∷ bs) (h, hs) = ground (arith, sweep_old m bs hs)

-- No active block of the chain announces an epoch.
abbrev pub IsQuiet : (ℕ → ThreadControlBlock) → List ℕ → Type 0
IsQuiet tcb = All (λ a. (tcb a).active ≡ true → (tcb a).local_epoch ≡ 0)

min_epoch-IsQuiet :
    (tcb : ℕ → ThreadControlBlock) (chain : List ℕ) (m : ℕ)
    → IsQuiet tcb chain
    → min_epoch tcb chain m ≡ m
unfolding min_epoch
min_epoch-IsQuiet tcb [] m h = refl
min_epoch-IsQuiet tcb (a ∷ rest) m (h, hs) =
    ap (min_epoch tcb rest) (step (tcb a) h) ∙ min_epoch-IsQuiet tcb rest m hs
  where
    step : (b : ThreadControlBlock) → (b.active ≡ true → b.local_epoch ≡ 0) → scan_step b m ≡ m
    step b q = ground (arith, q)

-- A collection changes one block, and of it only the batches.
IsQuiet-update :
    (tcb : ℕ → ThreadControlBlock) (c : ℕ) (bs : List Batch) (chain : List ℕ)
    → IsQuiet tcb chain
    → IsQuiet (update tcb c (record (tcb c) { retirement_batches = bs })) chain
IsQuiet-update tcb c bs [] h = tt
IsQuiet-update tcb c bs (a ∷ rest) (h, hs) =
    ((λ act. ground (arith, h)), IsQuiet-update tcb c bs rest hs)

-- No collection frees a node twice or loses one: a node is as often deleted or waiting as before.
pub gc-count :
    (e : Ebr) (c n : ℕ)
    → count n (gc e (some c)).deleted + count_batches n ((gc e (some c)).tcb c).retirement_batches
      ≡ count n e.deleted + count_batches n (e.tcb c).retirement_batches
unfolding gc
gc-count e c n =
    let m = min_epoch e.tcb e.chain e.global_epoch in
    let bs = (e.tcb c).retirement_batches in
    ground (arith, ==-self c, count-append n e.deleted (sweep m bs).0, count-sweep n m bs)

-- While nobody reads, a collection moves the epoch on and keeps only batches of the epoch before.
record Moved (e : Ebr) (c : ℕ) (f : Ebr) : Type 0 where
  later : f.global_epoch ≡ suc e.global_epoch
  quiet : IsQuiet f.tcb f.chain
  kept : (f.tcb c).retirement_batches ≡ (sweep e.global_epoch (e.tcb c).retirement_batches).1

gc-Moved : (e : Ebr) (c : ℕ) → IsQuiet e.tcb e.chain → Moved e c (gc e (some c))
unfolding gc
gc-Moved e c h =
    let same = min_epoch-IsQuiet e.tcb e.chain e.global_epoch h in
    record {
      later = ground (arith, same);
      quiet =
          IsQuiet-update e.tcb c
            (sweep (min_epoch e.tcb e.chain e.global_epoch) (e.tcb c).retirement_batches).1 e.chain
            h;
      kept = rw same (ground (arith, ==-self c));
    }

weaken :
    (g m : ℕ) (bs : List Batch) → m ≡ suc g → All (λ b. b.epoch ≤ g) bs → All (λ b. b.epoch < m) bs
weaken g m [] e h = tt
weaken g m (b ∷ bs) e (h, hs) = (omega (arith, e, h), weaken g m bs e hs)

-- While no active thread announces an epoch, two collections by a thread delete everything it has
-- retired, each node as often as it was retired. Its batches are of epochs up to the current one.
pub gc-gc :
    (e : Ebr) (c n : ℕ)
    → IsQuiet e.tcb e.chain
    → All (λ b. b.epoch ≤ e.global_epoch) (e.tcb c).retirement_batches
    → let f = gc (gc e (some c)) (some c) in
      ((f.tcb c).retirement_batches ≡ [])
      × (count n f.deleted ≡ count n e.deleted + count_batches n (e.tcb c).retirement_batches)
gc-gc e c n h dated =
    let one = gc-Moved e c h in
    let two = gc-Moved (gc e (some c)) c one.quiet in
    let g = e.global_epoch in
    let older = sweep-All (λ x. x ≤ g) g (e.tcb c).retirement_batches dated in
    let past =
      subst (All (λ b. b.epoch < (gc e (some c)).global_epoch)) (sym one.kept)
        (weaken g (gc e (some c)).global_epoch _ one.later older) in
    let gone =
      two.kept
      ∙ sweep_old (gc e (some c)).global_epoch ((gc e (some c)).tcb c).retirement_batches past in
    (gone, omega (arith, gc-count e c n, gc-count (gc e (some c)) c n, ap (count_batches n) gone))
