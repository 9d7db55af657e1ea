-- ===== src/Mesi/ShardedTrial.antt =====
-- RunShardedMapTrial of common/locks_under_the_hood/challenge.cc without its clocks and its barrier:
-- threads that draw keys and upsert them. A run is the order in which the upserts take effect, told
-- by the threads that do them.
use hotpathcplusplus.Base.{
  ℕ, suc, ◌*◌, ◌/◌, ◌%◌, ◌^◌, ◌≤◌, ◌<◌, ◌≡◌, refl, sym, ap, ◌∙◌, Bool, true, List, [], ◌∷◌, length,
  replicate, count, update, bit_xor, ◌==◌, mul64, u64_mod, arith,
}
use hotpathcplusplus.Base.Sums.{sum_below-const, sum_below-count}
use hotpathcplusplus.Mesi.Sharded.{
  MapShard, new_shard, upsert, upserts, total_updates, total_updates-upserts,
}

-- the key of a thread before its loop
unfoldable pub start_key : ℕ → ℕ
start_key tid = bit_xor (mul64 tid 1315423911) 0x9E3779B97F4A7C15

-- the key of its next round
unfoldable pub next_key : ℕ → ℕ
next_key key = mul64 (bit_xor key (key / 2 ^ 30)) 0xBF58476D1CE4E5B9

-- the rounds of the threads, in the order of their upserts, from the keys that they have
unfoldable pub run_rounds : (ℕ → ℕ) → List MapShard → List ℕ → List MapShard
run_rounds keys shards [] = shards
run_rounds keys shards (tid ∷ schedule) =
    let key = next_key (keys tid) in run_rounds (update keys tid key) (upsert shards key 1) schedule

-- A schedule in which each of the threads does all its rounds, and nobody else does any.
pub record IsComplete (num_threads ops_per_thread : ℕ) (schedule : List ℕ) : Type 0 where
  pub all_rounds : (tid : ℕ) → tid < num_threads → count tid schedule ≡ ops_per_thread
  pub no_other : (tid : ℕ) → num_threads ≤ tid → count tid schedule ≡ 0

-- final_seq of the result
unfoldable pub sharded_map_trial : List ℕ → ℕ
unfolding run_rounds
sharded_map_trial schedule = total_updates (run_rounds start_key (replicate 64 new_shard) schedule)

-- invariant_ok of the result
unfoldable pub sharded_map_ok : (num_threads ops_per_thread : ℕ) → List ℕ → Bool
sharded_map_ok num_threads ops_per_thread schedule =
    sharded_map_trial schedule == mul64 num_threads ops_per_thread

-- the calls of Upsert in a run
calls_of : (ℕ → ℕ) → List ℕ → List (ℕ × ℕ)
calls_of keys [] = []
calls_of keys (tid ∷ schedule) =
    let key = next_key (keys tid) in (key, 1) ∷ calls_of (update keys tid key) schedule

length-calls_of :
    (keys : ℕ → ℕ) (schedule : List ℕ) → length (calls_of keys schedule) ≡ length schedule
unfolding calls_of
length-calls_of keys [] = refl
length-calls_of keys (tid ∷ schedule) =
    ap suc (length-calls_of (update keys tid (next_key (keys tid))) schedule)

run_rounds-upserts :
    (keys : ℕ → ℕ) (shards : List MapShard) (schedule : List ℕ)
    → run_rounds keys shards schedule ≡ upserts shards (calls_of keys schedule)
unfolding run_rounds upserts calls_of
run_rounds-upserts keys shards [] = refl
run_rounds-upserts keys shards (tid ∷ schedule) =
    let key = next_key (keys tid) in
    run_rounds-upserts (update keys tid key) (upsert shards key 1) schedule

-- Whatever the order of the upserts, once each thread has done its rounds TotalUpdates is their number
-- in 64 bits, and the check of the trial succeeds.
pub sharded_map_trial_lem :
    (num_threads ops_per_thread : ℕ) (schedule : List ℕ)
    → IsComplete num_threads ops_per_thread schedule
    → (sharded_map_trial schedule ≡ mul64 num_threads ops_per_thread)
      × (sharded_map_ok num_threads ops_per_thread schedule ≡ true)
unfolding sharded_map_trial sharded_map_ok
sharded_map_trial_lem m o schedule c =
    let calls = calls_of start_key schedule in
    let rounds : length calls ≡ m * o =
      length-calls_of start_key schedule
      ∙ sym (sum_below-count schedule m c.no_other)
      ∙ sum_below-const (λ j. count j schedule) m o c.all_rounds in
    let total =
      ap total_updates (run_rounds-upserts start_key (replicate 64 new_shard) schedule)
      ∙ total_updates-upserts 64 calls (omega arith)
      ∙ ap (λ (n : ℕ). n % u64_mod) rounds in
    (total, ground (arith, total))
