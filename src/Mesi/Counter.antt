-- ===== src/Mesi/Counter.antt =====
-- ShardedCounter: one word for each shard. A thread adds to the shard that its worker id selects by
-- one fetch_add, so a run is a sequence of additions.
use hotpathcplusplus.Base.{
  ℕ, zero, suc, ◌+◌, ◌-◌, ◌%◌, ◌<◌, ◌≡◌, refl, List, [], ◌∷◌, length, get_or, set, replicate, map,
  length-set, length-replicate, bit_and, add64, u64_mod, arith,
}
use hotpathcplusplus.Base.Bits.{bit_and-le}

-- `worker_id & (NumShards - 1)`
unfoldable pub shard_index : ℕ → ℕ → ℕ
shard_index num_shards worker_id = bit_and worker_id (num_shards - 1)

unfoldable pub increment : List ℕ → ℕ → ℕ → List ℕ
increment shards worker_id delta =
    let i = shard_index (length shards) worker_id in set shards i (add64 (get_or shards i 0) delta)

-- the loop of ReadTotal, from a sum
unfoldable pub sum_shards : ℕ → List ℕ → ℕ
sum_shards sum [] = sum
sum_shards sum (x ∷ shards) = sum_shards (add64 sum x) shards

unfoldable pub read_total : List ℕ → ℕ
read_total shards = sum_shards 0 shards

unfoldable pub reset : List ℕ → List ℕ
reset shards = map (λ x. 0) shards

-- additions by workers, in the order in which they take effect
unfoldable pub increments : List ℕ → List (ℕ × ℕ) → List ℕ
increments shards [] = shards
increments shards ((worker_id, delta) ∷ ops) = increments (increment shards worker_id delta) ops

abbrev plain_sum : List ℕ → ℕ
plain_sum [] = 0
plain_sum (x ∷ xs) = x + plain_sum xs

-- The sum of the deltas, without wrap-around.
abbrev pub deltas : List (ℕ × ℕ) → ℕ
deltas [] = 0
deltas ((worker_id, delta) ∷ ops) = delta + deltas ops

sum_shards-plain :
    (s : ℕ) (shards : List ℕ) → s < u64_mod → sum_shards s shards ≡ (s + plain_sum shards) % u64_mod
unfolding sum_shards
sum_shards-plain s [] h = omega arith
sum_shards-plain s (x ∷ shards) h = omega (arith, sum_shards-plain (add64 s x) shards (omega arith))

plain_sum-set :
    (shards : List ℕ) (i d : ℕ)
    → i < length shards
    → plain_sum (set shards i (add64 (get_or shards i 0) d)) % u64_mod
      ≡ (plain_sum shards + d) % u64_mod
plain_sum-set [] i d h = absurd (omega arith)
plain_sum-set (x ∷ shards) zero d h = omega arith
plain_sum-set (x ∷ shards) (suc i) d h = omega (arith, plain_sum-set shards i d (omega arith))

increments-plain :
    (shards : List ℕ) (ops : List (ℕ × ℕ))
    → 0 < length shards
    → plain_sum (increments shards ops) % u64_mod ≡ (plain_sum shards + deltas ops) % u64_mod
unfolding increments increment shard_index
increments-plain shards [] h = omega arith
increments-plain shards ((w, d) ∷ ops) h = omega (
  arith,
  increments-plain (increment shards w d) ops (
      omega (
        arith,
        length-set shards (shard_index (length shards) w)
            (add64 (get_or shards (shard_index (length shards) w) 0) d),
      )),
  plain_sum-set shards (shard_index (length shards) w) d
      (omega (arith, bit_and-le w (length shards - 1))),
)

plain_sum-replicate : (n : ℕ) → plain_sum (replicate n 0) ≡ 0
plain_sum-replicate zero = refl
plain_sum-replicate (suc n) = omega (arith, plain_sum-replicate n)

-- From zeroed shards, ReadTotal gives the sum of all the deltas modulo 2 ^ 64, whichever workers
-- added them.
pub read_total-increments :
    (n : ℕ) (ops : List (ℕ × ℕ))
    → 0 < n
    → read_total (increments (replicate n 0) ops) ≡ deltas ops % u64_mod
unfolding read_total
read_total-increments n ops h = omega (
  arith,
  sum_shards-plain 0 (increments (replicate n 0) ops) (omega arith),
  increments-plain (replicate n 0) ops (omega (arith, length-replicate {A = ℕ} n 0)),
  plain_sum-replicate n,
)
