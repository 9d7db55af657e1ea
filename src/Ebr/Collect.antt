-- ===== src/Ebr/Collect.antt =====
-- The collector's bound and what it deletes.
use native.Mathlib.Nat.{le_trans}
use hotpathcplusplus.Base.{
  ℕ, ◌≤◌, ◌≡◌, sym, subst, ◌⊎◌, inl, inr, ◌≢◌, true, List, [], ◌∷◌, ◌++◌, All, ltb, ◌==◌, arith,
  Bool-cases, ==_iff,
}
use hotpathcplusplus.Ebr.Engine.{Batch, ThreadControlBlock, scan_step, min_epoch, sweep, add_node}

-- membership, by recursion
abbrev pub In : ℕ → List ℕ → Type 0
In n [] = ⊥
In n (x ∷ xs) = (n ≡ x) ⊎ In n xs

pub In-append : (n : ℕ) (xs ys : List ℕ) → In n (xs ++ ys) → In n xs ⊎ In n ys
In-append n [] ys h = inr h
In-append n (x ∷ xs) ys (inl e) = inl (inl e)
In-append n (x ∷ xs) ys (inr h) = elim (In-append n xs ys h) [ inl k ↦ inl (inr k) | inr k ↦ inr k ]

scan_step-le : (b : ThreadControlBlock) (m : ℕ) → scan_step b m ≤ m
scan_step-le b m = ground arith

scan_step-le_local :
    (b : ThreadControlBlock) (m : ℕ)
    → b.active ≡ true
    → b.local_epoch ≢ 0
    → scan_step b m ≤ b.local_epoch
scan_step-le_local b m act live = ground arith

-- The bound never exceeds where the scan started ...
pub min_epoch-le :
    (tcb : ℕ → ThreadControlBlock) (chain : List ℕ) (m : ℕ) → min_epoch tcb chain m ≤ m
unfolding min_epoch
min_epoch-le tcb [] m = omega arith
min_epoch-le tcb (a ∷ rest) m =
    le_trans (min_epoch-le tcb rest (scan_step (tcb a) m)) (scan_step-le (tcb a) m)

-- ... nor the announced epoch of any active block in the chain.
pub min_epoch-le_local :
    (tcb : ℕ → ThreadControlBlock) (chain : List ℕ) (m a : ℕ)
    → In a chain
    → (tcb a).active ≡ true
    → (tcb a).local_epoch ≢ 0
    → min_epoch tcb chain m ≤ (tcb a).local_epoch
unfolding min_epoch
min_epoch-le_local tcb [] m a h act live = absurd h
min_epoch-le_local tcb (x ∷ rest) m a (inl e) act live =
    le_trans (min_epoch-le tcb rest (scan_step (tcb x) m)) (
      subst (λ y. scan_step (tcb y) m ≤ (tcb a).local_epoch) e
        (scan_step-le_local (tcb a) m act live))
min_epoch-le_local tcb (x ∷ rest) m a (inr h) act live = min_epoch-le_local tcb rest _ a h act live

-- Every batch that holds the node satisfies `P` of its epoch.
abbrev pub Batched : (ℕ → Type 0) → ℕ → List Batch → Type 0
Batched P n = All (λ b. In n b.nodes → P b.epoch)

-- What is swept away was in a batch older than the bound; what is kept was there before.
pub sweep-gone : (m n : ℕ) (bs : List Batch) → In n (sweep m bs).0 → Batched (λ e. m ≤ e) n bs → ⊥
unfolding sweep
sweep-gone m n [] h k = h
sweep-gone m n (b ∷ bs) h k = elim (Bool-cases (ltb b.epoch m)) [
  | inl old ↦ elim (In-append n b.nodes (sweep m bs).0 (rw old at h)) [
    | inl here ↦ absurd (ground (arith, k.0 here))
    | inr there ↦ sweep-gone m n bs there k.1
  ]
  | inr new ↦ sweep-gone m n bs (rw new at h) k.1
]

pub sweep-kept :
    (P : ℕ → Type 0) (m n : ℕ) (bs : List Batch) → Batched P n bs → Batched P n (sweep m bs).1
unfolding sweep
sweep-kept P m n [] k = tt
sweep-kept P m n (b ∷ bs) k = elim (Bool-cases (ltb b.epoch m)) [
  | inl old ↦ rw old (sweep-kept P m n bs k.1)
  | inr new ↦ rw new (k.0, sweep-kept P m n bs k.1)
]

pub add_node-Batched :
    (P : ℕ → Type 0) (epoch x n : ℕ) (bs : List Batch)
    → (n ≡ x → P epoch)
    → Batched P n bs
    → Batched P n (add_node epoch x bs)
unfolding add_node
add_node-Batched P epoch x n [] new k = (λ h. elim h [ inl e ↦ new e | inr f ↦ absurd f ], tt)
add_node-Batched P epoch x n (b ∷ []) new k = elim (Bool-cases (b.epoch == epoch)) [
  | inl same ↦ rw same (
    λ h. elim (In-append n b.nodes (x ∷ []) h) [
      | inl old ↦ k.0 old
      | inr (inl e) ↦ subst P (sym ((==_iff b.epoch epoch).0 same)) (new e)
      | inr (inr f) ↦ absurd f
    ],
    tt,
  )
  | inr other ↦ rw other (k.0, ((λ h. elim h [ inl e ↦ new e | inr f ↦ absurd f ]), tt))
]
add_node-Batched P epoch x n (b ∷ c ∷ bs) new k =
    (k.0, add_node-Batched P epoch x n (c ∷ bs) new k.1)

pub Batched-weaken :
    (P Q : ℕ → Type 0) (n : ℕ) (bs : List Batch)
    → ((e : ℕ) → P e → Q e)
    → Batched P n bs
    → Batched Q n bs
Batched-weaken P Q n [] f k = tt
Batched-weaken P Q n (b ∷ bs) f (h, k) = ((λ i. f b.epoch (h i)), Batched-weaken P Q n bs f k)
