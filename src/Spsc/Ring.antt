-- ===== src/Spsc/Ring.antt =====
-- SpscRingBuffer<T, Capacity> of common/store_buffer/store_buffer.h. The static_assert makes
-- Capacity a power of two, here `2 ^ k`, so `& (Capacity - 1)` is `% 2 ^ k`. The SeqCst and the
-- AcquireRelease methods differ in memory order alone.
use hotpathcplusplus.Base.{
  ℕ, ◌%◌, ◌^◌, Bool, true, false, List, Option, none, some, get_or, set, replicate, leb, ◌==◌,
  if◌then◌else◌, add64, sub64,
}

pub record MarketTick : Type 0 where
  pub sequence : ℕ
  pub price_micros : ℕ
  pub quantity : ℕ
  pub venue_id : ℕ

abbrev pub default_tick : MarketTick
default_tick = record { sequence = 0; price_micros = 0; quantity = 0; venue_id = 0 }

pub record SpscRingBuffer {ℓ} (T : Type ℓ) : Type ℓ where
  pub write_idx : ℕ
  pub read_idx : ℕ
  pub slots : List T

-- the value-initialised ring; `d` is `T{}`
unfoldable pub new_ring {ℓ} : {T : Type ℓ} → ℕ → T → SpscRingBuffer T
new_ring k d = record { write_idx = 0; read_idx = 0; slots = replicate (2 ^ k) d }

module _ {ℓ} {T : Type ℓ} (k : ℕ) (d : T) where
  unfoldable pub try_push_seq_cst : SpscRingBuffer T → T → Bool × SpscRingBuffer T
  try_push_seq_cst b item = if leb (2 ^ k) (sub64 b.write_idx b.read_idx) then (false, b) else (
    true,
    record b { slots = set b.slots (b.write_idx % 2 ^ k) item; write_idx = add64 b.write_idx 1 },
  )

  -- the item that goes through `out`, if the call returns true
  unfoldable pub try_pop_seq_cst : SpscRingBuffer T → Option T × SpscRingBuffer T
  try_pop_seq_cst b = if b.read_idx == b.write_idx then (none, b) else (
    some (get_or b.slots (b.read_idx % 2 ^ k) d),
    record b { read_idx = add64 b.read_idx 1 },
  )

  unfoldable pub try_push_acquire_release : SpscRingBuffer T → T → Bool × SpscRingBuffer T
  try_push_acquire_release b item =
      if leb (2 ^ k) (sub64 b.write_idx b.read_idx) then (false, b) else (
        true,
        record b {
          slots = set b.slots (b.write_idx % 2 ^ k) item;
          write_idx = add64 b.write_idx 1;
        },
      )

  unfoldable pub try_pop_acquire_release : SpscRingBuffer T → Option T × SpscRingBuffer T
  try_pop_acquire_release b = if b.read_idx == b.write_idx then (none, b) else (
    some (get_or b.slots (b.read_idx % 2 ^ k) d),
    record b { read_idx = add64 b.read_idx 1 },
  )
