-- ===== src/Mesi/Sharded.antt =====
-- ShardedHashMap of common/locks_under_the_hood/locks_under_the_hood.h. Each shard is updated under
-- its own mutex, so a run is a sequence of updates.
use hotpathcplusplus.Base.{
  ℕ, zero, suc, ◌+◌, ◌-◌, ◌/◌, ◌%◌, ◌^◌, ◌<◌, ◌≡◌, refl, List, [], ◌∷◌, length, get_or, set,
  replicate, length-set, length-replicate, bit_and, bit_xor, add64, mul64, u64_mod, arith,
}
use hotpathcplusplus.Base.Bits.{bit_and-le}

pub record MapShard : Type 0 where
  pub buckets : List ℕ
  pub updates : ℕ

abbrev pub new_shard : MapShard
new_shard = record { buckets = replicate 16 0; updates = 0 }

unfoldable pub mix_hash : ℕ → ℕ
mix_hash x =
    let a = mul64 (bit_xor x (x / 2 ^ 30)) 0xBF58476D1CE4E5B9 in
    let b = mul64 (bit_xor a (a / 2 ^ 27)) 0x94D049BB133111EB in bit_xor b (b / 2 ^ 31)

unfoldable pub upsert_shard : ℕ → ℕ → MapShard → MapShard
upsert_shard h delta s =
    let i = bit_and (h / 2 ^ 8) 15 in
    record {
      buckets = set s.buckets i (add64 (get_or s.buckets i 0) delta);
      updates = add64 s.updates 1;
    }

-- Upsert; the number of shards is the length of the list
unfoldable pub upsert : List MapShard → ℕ → ℕ → List MapShard
upsert shards key delta =
    let i = bit_and (mix_hash key) (length shards - 1) in
    set shards i (upsert_shard (mix_hash key) delta (get_or shards i new_shard))

-- the loop of TotalUpdates, from a sum
unfoldable pub sum_updates : ℕ → List MapShard → ℕ
sum_updates sum [] = sum
sum_updates sum (s ∷ shards) = sum_updates (add64 sum s.updates) shards

unfoldable pub total_updates : List MapShard → ℕ
total_updates shards = sum_updates 0 shards

-- upserts in the order in which they take effect
unfoldable pub upserts : List MapShard → List (ℕ × ℕ) → List MapShard
upserts shards [] = shards
upserts shards ((key, delta) ∷ ops) = upserts (upsert shards key delta) ops

abbrev plain_updates : List MapShard → ℕ
plain_updates [] = 0
plain_updates (s ∷ shards) = s.updates + plain_updates shards

sum_updates-plain :
    (n : ℕ) (shards : List MapShard)
    → n < u64_mod
    → sum_updates n shards ≡ (n + plain_updates shards) % u64_mod
unfolding sum_updates
sum_updates-plain n [] h = omega arith
sum_updates-plain n (s ∷ shards) h =
    omega (arith, sum_updates-plain (add64 n s.updates) shards (omega arith))

plain_updates-set :
    (shards : List MapShard) (i h d : ℕ)
    → i < length shards
    → plain_updates (set shards i (upsert_shard h d (get_or shards i new_shard))) % u64_mod
      ≡ (plain_updates shards + 1) % u64_mod
unfolding upsert_shard
plain_updates-set [] i h d l = absurd (omega arith)
plain_updates-set (s ∷ shards) zero h d l = omega arith
plain_updates-set (s ∷ shards) (suc i) h d l =
    omega (arith, plain_updates-set shards i h d (omega arith))

upserts-plain :
    (shards : List MapShard) (ops : List (ℕ × ℕ))
    → 0 < length shards
    → plain_updates (upserts shards ops) % u64_mod ≡ (plain_updates shards + length ops) % u64_mod
unfolding upserts upsert
upserts-plain shards [] l = omega arith
upserts-plain shards ((key, d) ∷ ops) l =
    let i = bit_and (mix_hash key) (length shards - 1) in
    let s = upsert_shard (mix_hash key) d (get_or shards i new_shard) in
    omega (
      arith,
      upserts-plain (upsert shards key d) ops (omega (arith, length-set shards i s)),
      plain_updates-set shards i (mix_hash key) d
          (omega (arith, bit_and-le (mix_hash key) (length shards - 1))),
    )

plain_updates-replicate : (n : ℕ) → plain_updates (replicate n new_shard) ≡ 0
plain_updates-replicate zero = refl
plain_updates-replicate (suc n) = omega (arith, plain_updates-replicate n)

-- From new shards, TotalUpdates gives the number of Upserts modulo 2 ^ 64, whatever their keys.
pub total_updates-upserts :
    (n : ℕ) (ops : List (ℕ × ℕ))
    → 0 < n
    → total_updates (upserts (replicate n new_shard) ops) ≡ length ops % u64_mod
unfolding total_updates
total_updates-upserts n ops h = omega (
  arith,
  sum_updates-plain 0 (upserts (replicate n new_shard) ops) (omega arith),
  upserts-plain (replicate n new_shard) ops
      (omega (arith, length-replicate {A = MapShard} n new_shard)),
  plain_updates-replicate n,
)
