-- ===== src/Seqlock/Trial.antt =====
-- SeqlockRouteCache of episodes/high_performance/10_locks_under_the_hood/challenge.cc and the
-- threads of RunRouteCacheTrial that write and read it, each load and store a step. A payload is
-- its 64-bit words, which memcpy reads and writes one by one in any order. Atomics are sequentially
-- consistent.
use hotpathcplusplus.Base.{
  ℕ, zero, suc, ◌+◌, ◌*◌, ◌%◌, ◌^◌, ◌≤◌, ◌<◌, ◌≡◌, ◌≢◌, Bool, false, not, ◌||◌, Option, none, some,
  bit_and, bit_or, ◌==◌, if◌then◌else◌, update, mul64, add64,
}

pub record RouteEntry : Type 0 where
  pub upstream_ipv4 : ℕ
  pub port : ℕ
  pub weight : ℕ
  pub version_epoch : ℕ
  pub quota_bytes : ℕ
  pub flags : ℕ

abbrev pub default_entry : RouteEntry
default_entry = record {
  upstream_ipv4 = 0x0A000001;
  port = 8080;
  weight = 100;
  version_epoch = 1;
  quota_bytes = 1024;
  flags = 0;
}

-- the words of an entry in memory; the first one has the three small fields
unfoldable pub words_of : RouteEntry → ℕ → ℕ
words_of e zero = e.upstream_ipv4 + 2 ^ 32 * e.port + 2 ^ 48 * e.weight
words_of e (suc zero) = e.version_epoch
words_of e (suc (suc zero)) = e.quota_bytes
words_of e (suc (suc (suc zero))) = e.flags
words_of e (suc (suc (suc (suc w)))) = 0

-- what thread `tid` writes in its round `i`
unfoldable pub updated_entry : ℕ → ℕ → RouteEntry
updated_entry tid i =
    let ver = bit_or (mul64 tid (2 ^ 32)) i in
    record {
      upstream_ipv4 = 0x0A000001;
      port = 8080;
      weight = 1;
      version_epoch = ver;
      quota_bytes = mul64 ver 1024;
      flags = 0;
    }

-- `snap.quota_bytes != snap.version_epoch * 1024ULL`, on the words of a snapshot
unfoldable pub is_torn : (ℕ → ℕ) → Bool
is_torn snap = not (snap 2 == mul64 (snap 1) 1024)

-- Where a thread stands. `updating` and `storing` have the local `seq0` and the words of `next`,
-- `copying` has `seq1` and the words copied so far.
pub data Pc : Type 0 where
  between : Pc
  updating : (seq0 : ℕ) (next : ℕ → ℕ) → Pc
  storing : (seq0 : ℕ) (next : ℕ → ℕ) → Pc
  unlocking : Pc
  looking : Pc
  copying : (seq1 : ℕ) (copy : ℕ → Option ℕ) → Pc

-- The cache (`owner` is the holder of writer_mtx_), the round of each thread, and torn_detected.
pub record CacheTrial : Type 0 where
  pub seq : ℕ
  pub payload : ℕ → ℕ
  pub owner : Option ℕ
  pub pc : ℕ → Pc
  pub round : ℕ → ℕ
  pub torn_detected : Bool

abbrev pub new_trial : CacheTrial
new_trial = record {
  seq = 0;
  payload = words_of default_entry;
  owner = none;
  pc = λ t. between;
  round = λ t. 1;
  torn_detected = false;
}

-- a thread that has to do a round of its loop
abbrev pub IsDue : ℕ → ℕ → CacheTrial → ℕ → Type 0
IsDue num_threads ops s t = (s.pc t ≡ between) × (t < num_threads) × (s.round t ≤ ops)

-- The first load of a round of `read`: an odd counter goes round the loop.
unfoldable pub look : CacheTrial → ℕ → CacheTrial
look s t = record s {
  pc = update s.pc t (if bit_and s.seq 1 == 0 then copying s.seq (λ w. none) else looking);
}

-- The second load, with everything copied: `read` returns to the check of the trial, or looks again.
unfoldable pub look_again : CacheTrial → ℕ → ℕ → (ℕ → ℕ) → CacheTrial
look_again s t seq1 snap =
    if seq1 == s.seq
    then record s {
      pc = update s.pc t between;
      round = update s.round t (s.round t + 1);
      torn_detected = s.torn_detected || is_torn snap;
    }
    else record s { pc = update s.pc t looking }

-- One step of thread `t`. The mutex is taken together with the load of `seq0`, since only its owner
-- stores to the counter.
pub data Step (num_threads ops : ℕ) (s : CacheTrial) : CacheTrial → Type 0 where
  start_update :
      (t : ℕ)
      → IsDue num_threads ops s t
      → s.round t % 100 ≡ 0
      → s.owner ≡ none
      → Step num_threads ops s (record s {
        owner = some t;
        pc = update s.pc t (updating s.seq (words_of (updated_entry t (s.round t))));
      })
  store_odd :
      (t seq0 : ℕ) (next : ℕ → ℕ)
      → s.pc t ≡ updating seq0 next
      → Step num_threads ops s
          (record s { seq = add64 seq0 1; pc = update s.pc t (storing seq0 next) })
  store_word :
      (t seq0 w : ℕ) (next : ℕ → ℕ)
      → s.pc t ≡ storing seq0 next
      → Step num_threads ops s (record s { payload = update s.payload w (next w) })
  store_even :
      (t seq0 : ℕ) (next : ℕ → ℕ)
      → s.pc t ≡ storing seq0 next
      → ((w : ℕ) → w < 4 → s.payload w ≡ next w)
      → Step num_threads ops s (record s { seq = add64 seq0 2; pc = update s.pc t unlocking })
  unlock :
      (t : ℕ)
      → s.pc t ≡ unlocking
      → Step num_threads ops s (record s {
        owner = none;
        pc = update s.pc t between;
        round = update s.round t (s.round t + 1);
      })
  start_read :
      (t : ℕ)
      → IsDue num_threads ops s t
      → s.round t % 100 ≢ 0
      → Step num_threads ops s (record s { pc = update s.pc t looking })
  first_look : (t : ℕ) → s.pc t ≡ looking → Step num_threads ops s (look s t)
  copy_word :
      (t seq1 w : ℕ) (copy : ℕ → Option ℕ)
      → s.pc t ≡ copying seq1 copy
      → Step num_threads ops s
          (record s { pc = update s.pc t (copying seq1 (update copy w (some (s.payload w)))) })
  second_look :
      (t seq1 : ℕ) (copy : ℕ → Option ℕ) (snap : ℕ → ℕ)
      → s.pc t ≡ copying seq1 copy
      → ((w : ℕ) → w < 4 → copy w ≡ some (snap w))
      → Step num_threads ops s (look_again s t seq1 snap)

pub data Reach (num_threads ops : ℕ) : CacheTrial → Type 0 where
  start : Reach num_threads ops new_trial
  step :
      {s u : CacheTrial}
      → Reach num_threads ops s
      → Step num_threads ops s u
      → Reach num_threads ops u
