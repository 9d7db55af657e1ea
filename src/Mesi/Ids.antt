-- ===== src/Mesi/Ids.antt =====
-- BatchedIdGenerator: a shared counter from which each thread leases a batch of identifiers.
use hotpathcplusplus.Base.{ℕ, ◌==◌, if◌then◌else◌, List, [], ◌∷◌, add64, update}

pub record ThreadLease : Type 0 where
  pub cur : ℕ
  pub batch_end : ℕ

-- the generator, and the lease of each thread
pub record BatchedIdGenerator : Type 0 where
  pub global_id : ℕ
  pub lease : ℕ → ThreadLease

abbrev pub new_generator : BatchedIdGenerator
new_generator = record { global_id = 0; lease = λ t. record { cur = 0; batch_end = 0 } }

-- the branch that leases a batch, by one fetch_add
unfoldable pub refill : (batch_size : ℕ) → BatchedIdGenerator → ℕ → BatchedIdGenerator
refill batch_size g t = record {
  global_id = add64 g.global_id batch_size;
  lease = update g.lease t (record { cur = g.global_id; batch_end = add64 g.global_id batch_size });
}

-- `return lease.cur++`
unfoldable pub take_id : BatchedIdGenerator → ℕ → ℕ × BatchedIdGenerator
take_id g t =
    let l = g.lease t in
    (l.cur, record g { lease = update g.lease t (record l { cur = add64 l.cur 1 }) })

-- thread `t` calls NextId with its own lease
unfoldable pub next_id : (batch_size : ℕ) → BatchedIdGenerator → ℕ → ℕ × BatchedIdGenerator
next_id batch_size g t =
    take_id (if (g.lease t).cur == (g.lease t).batch_end then refill batch_size g t else g) t

unfoldable pub global_watermark : BatchedIdGenerator → ℕ
global_watermark g = g.global_id

-- the identifiers that a sequence of callers gets
unfoldable pub next_ids : (batch_size : ℕ) → BatchedIdGenerator → List ℕ → List ℕ
next_ids batch_size g [] = []
next_ids batch_size g (t ∷ callers) =
    let (i, h) = next_id batch_size g t in i ∷ next_ids batch_size h callers
