-- ===== src/Ring/Memory.antt =====
-- The data segment under the mirrored mapping of common/shared_memory/memory_map.cc: a virtual
-- address `a` reads and writes the physical byte `a % capacity`. Words are little-endian, as on x86-64.
use hotpathcplusplus.Base.Modular.{mod-ne, mod_add_congr}
use hotpathcplusplus.Base.{
  ℕ, zero, suc, ◌+◌, ◌*◌, ◌/◌, ◌%◌, ◌^◌, ◌≤◌, ◌<◌, ◌≡◌, refl, sym, ap, ap₂, ◌∙◌, ◌≢◌, ◌⊎◌, inl, inr,
  List, [], ◌∷◌, length, update, arith,
}

abbrev pub Memory : Type 0
Memory = ℕ → ℕ

abbrev pub IsByte : ℕ → Type 0
IsByte b = b < 256

-- the `n` low bytes of a word, lowest first, and the word that bytes spell
pub to_bytes : ℕ → ℕ → List ℕ
to_bytes zero v = []
to_bytes (suc n) v = v % 256 ∷ to_bytes n (v / 256)

pub of_bytes : List ℕ → ℕ
of_bytes [] = 0
of_bytes (b ∷ bs) = b + 256 * of_bytes bs

pub length-to_bytes : (n v : ℕ) → length (to_bytes n v) ≡ n
unfolding to_bytes
length-to_bytes zero v = refl
length-to_bytes (suc n) v = ap suc (length-to_bytes n (v / 256))

pub of_bytes-to_bytes_four : (v : ℕ) → v < 2 ^ 32 → of_bytes (to_bytes 4 v) ≡ v
unfolding to_bytes of_bytes
of_bytes-to_bytes_four v h = omega arith

-- A store keeps the low bits.
pub of_bytes-to_bytes_mod : (v : ℕ) → of_bytes (to_bytes 4 v) ≡ v % 2 ^ 32
unfolding to_bytes of_bytes
of_bytes-to_bytes_mod v = omega arith

pub of_bytes-to_bytes_eight : (v : ℕ) → v < 2 ^ 64 → of_bytes (to_bytes 8 v) ≡ v
unfolding to_bytes of_bytes
of_bytes-to_bytes_eight v h = omega arith

module _ (capacity : ℕ) where
  unfoldable pub read_bytes : Memory → ℕ → ℕ → List ℕ
  read_bytes m a zero = []
  read_bytes m a (suc n) = m (a % capacity) ∷ read_bytes m (a + 1) n

  unfoldable pub write_bytes : Memory → ℕ → List ℕ → Memory
  write_bytes m a [] = m
  write_bytes m a (b ∷ bs) = write_bytes (update m (a % capacity) b) (a + 1) bs

  unfoldable pub load : Memory → ℕ → ℕ → ℕ
  unfolding read_bytes of_bytes
  load m a n = of_bytes (read_bytes m a n)

  unfoldable pub store : Memory → ℕ → ℕ → ℕ → Memory
  unfolding write_bytes to_bytes
  store m a n v = write_bytes m a (to_bytes n v)

-- The blocks of `n` bytes at `a` and of `k` bytes at `b` share no physical byte.
abbrev pub Apart : ℕ → ℕ → ℕ → ℕ → ℕ → Type 0
Apart capacity a n b k =
    ((a + n ≤ b) × (b + k ≤ a + capacity)) ⊎ ((b + k ≤ a) × (a + n ≤ b + capacity))

module _ (capacity : ℕ) where
  write_bytes-outside :
      (m : Memory) (a : ℕ) (bs : List ℕ) (q : ℕ)
      → Apart capacity a (length bs) q 1
      → write_bytes capacity m a bs (q % capacity) ≡ m (q % capacity)
  unfolding write_bytes
  write_bytes-outside m a [] q h = refl
  write_bytes-outside m a (b ∷ bs) q h =
      write_bytes-outside (update m (a % capacity) b) (a + 1) bs q (shift h)
      ∙ ground (arith, other h)
    where
      shift : Apart capacity a (suc (length bs)) q 1 → Apart capacity (a + 1) (length bs) q 1
      shift k = omega arith

      other : Apart capacity a (suc (length bs)) q 1 → a % capacity ≢ q % capacity
      other (inl k) = mod-ne capacity a q (omega arith) (omega arith)
      other (inr k) = λ e. mod-ne capacity q a (omega arith) (omega arith) (sym e)

  pub read_bytes-write_bytes-Apart :
      (m : Memory) (a : ℕ) (bs : List ℕ) (b n : ℕ)
      → Apart capacity a (length bs) b n
      → read_bytes capacity (write_bytes capacity m a bs) b n ≡ read_bytes capacity m b n
  unfolding read_bytes
  read_bytes-write_bytes-Apart m a bs b zero h = refl
  read_bytes-write_bytes-Apart m a bs b (suc n) h =
      ap₂ ◌∷◌ (write_bytes-outside m a bs b (omega arith))
        (read_bytes-write_bytes-Apart m a bs (b + 1) n (omega arith))

  pub read_bytes-write_bytes :
      (m : Memory) (a : ℕ) (bs : List ℕ)
      → length bs ≤ capacity
      → read_bytes capacity (write_bytes capacity m a bs) a (length bs) ≡ bs
  unfolding read_bytes write_bytes
  read_bytes-write_bytes m a [] h = refl
  read_bytes-write_bytes m a (b ∷ bs) h =
      ap₂ ◌∷◌ (write_bytes-outside _ (a + 1) bs a (omega arith) ∙ ground arith)
        (read_bytes-write_bytes (update m (a % capacity) b) (a + 1) bs (omega arith))

  -- Addresses that are equal modulo the capacity are the same bytes.
  pub read_bytes_congr :
      (m : Memory) (a b n : ℕ)
      → a % capacity ≡ b % capacity
      → read_bytes capacity m a n ≡ read_bytes capacity m b n
  unfolding read_bytes
  read_bytes_congr m a b zero e = refl
  read_bytes_congr m a b (suc n) e =
      ap₂ ◌∷◌ (ap m e) (read_bytes_congr m (a + 1) (b + 1) n (mod_add_congr capacity a b 1 e))

  pub write_bytes_congr :
      (m : Memory) (a b : ℕ) (bs : List ℕ)
      → a % capacity ≡ b % capacity
      → write_bytes capacity m a bs ≡ write_bytes capacity m b bs
  unfolding write_bytes
  write_bytes_congr m a b [] e = refl
  write_bytes_congr m a b (x ∷ bs) e = rw e (
      write_bytes_congr (update m (b % capacity) x) (a + 1) (b + 1) bs
        (mod_add_congr capacity a b 1 e))
