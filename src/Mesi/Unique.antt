-- ===== src/Mesi/Unique.antt =====
-- No identifier is given out twice.
use hotpathcplusplus.Base.{
  ℕ, ◌+◌, ◌*◌, ◌≤◌, ◌<◌, ◌≡◌, ◌≢◌, sym, ◌⊎◌, inl, inr, if◌then◌else◌, List, [], ◌∷◌, All, length,
  u64_mod, ==-at, ==-off, subst, ℕ_discrete, arith,
}
use hotpathcplusplus.Mesi.Ids.{
  BatchedIdGenerator, new_generator, refill, take_id, next_id, next_ids,
}

-- No identifier stands twice in the list.
abbrev pub Distinct : List ℕ → Type 0
Distinct [] = Unit
Distinct (x ∷ xs) = All (λ y. x ≢ y) xs × Distinct xs

-- An identifier that can still be given out: it is in a lease, or not leased yet.
Unused : BatchedIdGenerator → ℕ → Type 0
Unused g x = (g.global_id ≤ x) ⊎ ((t : ℕ) × ((g.lease t).cur ≤ x) × (x < (g.lease t).batch_end))

-- Leases lie below the watermark and apart from each other.
record IsLeased (g : BatchedIdGenerator) : Type 0 where
  ordered : (t : ℕ) → (g.lease t).cur ≤ (g.lease t).batch_end
  below : (t : ℕ) → (g.lease t).batch_end ≤ g.global_id
  apart :
      (t u : ℕ)
      → t ≢ u
      → ((g.lease t).batch_end ≤ (g.lease u).cur)
        ⊎ (((g.lease u).batch_end ≤ (g.lease t).cur)
            ⊎ (((g.lease t).cur ≡ (g.lease t).batch_end)
                ⊎ ((g.lease u).cur ≡ (g.lease u).batch_end)))

refill-IsLeased :
    (n : ℕ) (g : BatchedIdGenerator) (t : ℕ)
    → g.global_id + n < u64_mod
    → IsLeased g
    → IsLeased (refill n g t)
unfolding refill
refill-IsLeased n g t h v = record {
  ordered = λ u. ground (arith, v.ordered u);
  below = λ u. ground (arith, v.below u);
  apart = λ u w d. ground (arith, v.apart u w d, v.below u, v.below w);
}

take_id-IsLeased :
    (g : BatchedIdGenerator) (t : ℕ)
    → g.global_id < u64_mod
    → (g.lease t).cur < (g.lease t).batch_end
    → IsLeased g
    → IsLeased ((take_id g t).1)
unfolding take_id
take_id-IsLeased g t h c v = record {
  ordered = λ u. ground (arith, v.ordered u, v.below t);
  below = λ u. ground (arith, v.below u);
  apart = λ u w d. ground (arith, v.apart u w d, v.below t);
}

refill-Unused :
    (n : ℕ) (g : BatchedIdGenerator) (t x : ℕ)
    → g.global_id + n < u64_mod
    → Unused (refill n g t) x
    → Unused g x
unfolding refill Unused
refill-Unused n g t x h (inl p) = inl (ground arith)
refill-Unused n g t x h (inr (u, p, q)) = elim (ℕ_discrete t u) [
  | yes e ↦ inl (ground arith)
  | no d ↦ inr (u, ground arith, ground arith)
]

take_id-Unused :
    (g : BatchedIdGenerator) (t x : ℕ)
    → g.global_id < u64_mod
    → (g.lease t).cur < (g.lease t).batch_end
    → IsLeased g
    → Unused (take_id g t).1 x
    → Unused g x × ((g.lease t).cur ≢ x)
unfolding take_id Unused
take_id-Unused g t x h c v (inl p) = (inl p, λ e. ground (arith, v.below t))
take_id-Unused g t x h c v (inr (u, p, q)) = elim (ℕ_discrete t u) [
  | yes e ↦ (inr (t, ground (arith, v.below t), ground arith), λ r. ground (arith, v.below t))
  | no d ↦ (inr (u, ground arith, ground arith), λ r. ground (arith, v.apart t u d))
]

-- What one call of NextId does: the leases stay in order, the watermark grows by at most a batch,
-- and the identifier was unused before and is not unused after.
Serves : (batch_size : ℕ) → BatchedIdGenerator → ℕ × BatchedIdGenerator → Type 0
Serves n g (i, h) =
    IsLeased h
    × (h.global_id ≤ g.global_id + n)
    × Unused g i
    × ((x : ℕ) → Unused h x → Unused g x × (i ≢ x))

-- `f` is the generator after the test for an empty lease.
take_id-Serves :
    (n : ℕ) (g f : BatchedIdGenerator) (t : ℕ)
    → ((x : ℕ) → Unused f x → Unused g x)
    → f.global_id ≤ g.global_id + n
    → g.global_id + n < u64_mod
    → (f.lease t).cur < (f.lease t).batch_end
    → IsLeased f
    → Serves n g (take_id f t)
unfolding Serves take_id
take_id-Serves n g f t less le h c v = (
  take_id-IsLeased f t (omega arith) c v,
  le,
  less (f.lease t).cur (unfold Unused in inr (t, omega arith, c)),
  (λ x u. let (k, d) = take_id-Unused f t x (omega arith) c v u in (less x k, d)),
)

next_id-Serves :
    (n : ℕ) (g : BatchedIdGenerator) (t : ℕ)
    → 0 < n
    → g.global_id + n < u64_mod
    → IsLeased g
    → Serves n g (next_id n g t)
unfolding next_id
next_id-Serves n g t pos h v = elim (ℕ_discrete (g.lease t).cur (g.lease t).batch_end) [
  | yes e ↦
      subst (λ b. Serves n g (take_id (if b then refill n g t else g) t)) (sym (==-at e))
        (take_id-Serves n g (refill n g t) t (λ x u. refill-Unused n g t x h u)
          (unfold refill in omega arith) h (unfold refill in ground arith)
          (refill-IsLeased n g t h v))
  | no d ↦
      subst (λ b. Serves n g (take_id (if b then refill n g t else g) t)) (sym (==-off d))
        (take_id-Serves n g g t (λ x u. u) (omega arith) h (omega (arith, d, v.ordered t)) v)
]

All-map : {P Q : ℕ → Type 0} → ((y : ℕ) → P y → Q y) → (xs : List ℕ) → All P xs → All Q xs
All-map f [] a = tt
All-map f (x ∷ xs) (p, a) = (f x p, All-map f xs a)

next_ids-Unused :
    (n : ℕ) (g : BatchedIdGenerator) (callers : List ℕ)
    → 0 < n
    → g.global_id + n * length callers < u64_mod
    → IsLeased g
    → All (Unused g) (next_ids n g callers) × Distinct (next_ids n g callers)
unfolding next_ids Serves
next_ids-Unused n g [] pos h v = (tt, tt)
next_ids-Unused n g (t ∷ callers) pos h v =
    let (w, le, new, less) = served in
    let (rest, distinct) = next_ids-Unused n (next_id n g t).1 callers pos (omega arith) w in
    (
      (new, All-map (λ x u. (less x u).0) (next_ids n (next_id n g t).1 callers) rest),
      (All-map (λ x u. (less x u).1) (next_ids n (next_id n g t).1 callers) rest, distinct),
    )
  where
    served : Serves n g (next_id n g t)
    served = next_id-Serves n g t pos (omega arith) v

-- The identifiers that any sequence of calls, by whichever threads, gets from a new generator are
-- all different, for a batch size above 0 and calls whose number times the batch size is below
-- 2 ^ 64.
pub next_ids-Distinct :
    (n : ℕ) (callers : List ℕ)
    → 0 < n
    → n * length callers < u64_mod
    → Distinct (next_ids n new_generator callers)
next_ids-Distinct n callers pos h =
    (next_ids-Unused n new_generator callers pos (omega (arith, h)) start).1
  where
    start : IsLeased new_generator
    start = record {
      ordered = λ t. omega arith;
      below = λ t. omega arith;
      apart = λ t u d. inl (omega arith);
    }
