-- ===== src/Ring/Words.antt =====
-- Words in the mirrored data segment: what a load sees of a store, and addresses modulo the
-- capacity.
use native.Mathlib.Nat.{mod-add-mod, mod-mod}
use hotpathcplusplus.Base.{ℕ, ◌+◌, ◌%◌, ◌^◌, ◌≤◌, ◌<◌, ◌≡◌, ap, ◌∙◌, List, length, arith}
use hotpathcplusplus.Ring.Memory.{
  Memory, to_bytes, of_bytes, length-to_bytes, of_bytes-to_bytes_four, of_bytes-to_bytes_mod,
  of_bytes-to_bytes_eight, read_bytes, write_bytes, load, store, Apart,
  read_bytes-write_bytes-Apart, read_bytes-write_bytes, read_bytes_congr, write_bytes_congr,
}

-- `cursor % capacity` plus a field's place is the field's place in the stream.
pub place_congr : (capacity c k : ℕ) → (c % capacity + k) % capacity ≡ (c + k) % capacity
place_congr capacity c k = mod-add-mod c capacity k

module _ (capacity : ℕ) where
  -- A load is decided by the bytes that it reads.
  pub load_eq :
      (m m' : Memory) (a n : ℕ)
      → read_bytes capacity m a n ≡ read_bytes capacity m' a n
      → load capacity m a n ≡ load capacity m' a n
  unfolding load
  load_eq m m' a n e = ap of_bytes e

  pub load_congr :
      (m : Memory) (a b n : ℕ)
      → a % capacity ≡ b % capacity
      → load capacity m a n ≡ load capacity m b n
  unfolding load
  load_congr m a b n e = ap of_bytes (read_bytes_congr capacity m a b n e)

  pub store_congr :
      (m : Memory) (a b n v : ℕ)
      → a % capacity ≡ b % capacity
      → store capacity m a n v ≡ store capacity m b n v
  unfolding store
  store_congr m a b n v e = write_bytes_congr capacity m a b (to_bytes n v) e

  -- The code's addresses, an offset below the capacity plus a field's place, as stream positions.
  pub store_at :
      (m : Memory) (c k n v : ℕ)
      → store capacity m (c % capacity + k) n v ≡ store capacity m (c + k) n v
  store_at m c k n v = store_congr m (c % capacity + k) (c + k) n v (place_congr capacity c k)

  pub store_at_start :
      (m : Memory) (c n v : ℕ) → store capacity m (c % capacity) n v ≡ store capacity m c n v
  store_at_start m c n v = store_congr m (c % capacity) c n v (mod-mod c capacity)

  pub load_at :
      (m : Memory) (c k n : ℕ) → load capacity m (c % capacity + k) n ≡ load capacity m (c + k) n
  load_at m c k n = load_congr m (c % capacity + k) (c + k) n (place_congr capacity c k)

  pub load_at_start :
      (m : Memory) (c n : ℕ) → load capacity m (c % capacity) n ≡ load capacity m c n
  load_at_start m c n = load_congr m (c % capacity) c n (mod-mod c capacity)

  pub read_bytes_at :
      (m : Memory) (c k n : ℕ)
      → read_bytes capacity m (c % capacity + k) n ≡ read_bytes capacity m (c + k) n
  read_bytes_at m c k n =
      read_bytes_congr capacity m (c % capacity + k) (c + k) n (place_congr capacity c k)

  pub write_bytes_at :
      (m : Memory) (c k : ℕ) (bs : List ℕ)
      → write_bytes capacity m (c % capacity + k) bs ≡ write_bytes capacity m (c + k) bs
  write_bytes_at m c k bs =
      write_bytes_congr capacity m (c % capacity + k) (c + k) bs (place_congr capacity c k)

  pub read_bytes-store :
      (m : Memory) (a n v b k : ℕ)
      → Apart capacity a n b k
      → read_bytes capacity (store capacity m a n v) b k ≡ read_bytes capacity m b k
  unfolding store
  read_bytes-store m a n v b k h =
      read_bytes-write_bytes-Apart capacity m a (to_bytes n v) b k
        (omega (arith, length-to_bytes n v))

  pub load-store-Apart :
      (m : Memory) (a n v b k : ℕ)
      → Apart capacity a n b k
      → load capacity (store capacity m a n v) b k ≡ load capacity m b k
  unfolding load
  load-store-Apart m a n v b k h = ap of_bytes (read_bytes-store m a n v b k h)

  pub load-write_bytes :
      (m : Memory) (a : ℕ) (bs : List ℕ) (b k : ℕ)
      → Apart capacity a (length bs) b k
      → load capacity (write_bytes capacity m a bs) b k ≡ load capacity m b k
  unfolding load
  load-write_bytes m a bs b k h = ap of_bytes (read_bytes-write_bytes-Apart capacity m a bs b k h)

  pub load-store_four :
      (m : Memory) (a v : ℕ)
      → 4 ≤ capacity
      → v < 2 ^ 32
      → load capacity (store capacity m a 4 v) a 4 ≡ v
  unfolding load store
  load-store_four m a v h fits =
      ap of_bytes (read_bytes-write_bytes capacity m a (to_bytes 4 v) (h' h))
      ∙ of_bytes-to_bytes_four v fits
    where
      h' : 4 ≤ capacity → length (to_bytes 4 v) ≤ capacity
      h' k = omega (arith, length-to_bytes 4 v)

  pub load-store_mod :
      (m : Memory) (a v : ℕ)
      → 4 ≤ capacity
      → load capacity (store capacity m a 4 v) a 4 ≡ v % 2 ^ 32
  unfolding load store
  load-store_mod m a v h =
      ap of_bytes (read_bytes-write_bytes capacity m a (to_bytes 4 v) (h' h))
      ∙ of_bytes-to_bytes_mod v
    where
      h' : 4 ≤ capacity → length (to_bytes 4 v) ≤ capacity
      h' k = omega (arith, length-to_bytes 4 v)

  pub load-store_eight :
      (m : Memory) (a v : ℕ)
      → 8 ≤ capacity
      → v < 2 ^ 64
      → load capacity (store capacity m a 8 v) a 8 ≡ v
  unfolding load store
  load-store_eight m a v h fits =
      ap of_bytes (read_bytes-write_bytes capacity m a (to_bytes 8 v) (h' h))
      ∙ of_bytes-to_bytes_eight v fits
    where
      h' : 8 ≤ capacity → length (to_bytes 8 v) ≤ capacity
      h' k = omega (arith, length-to_bytes 8 v)

pub ruleset places =
    (store_at, store_at_start, load_at, load_at_start, read_bytes_at, write_bytes_at)
