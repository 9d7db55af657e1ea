-- ===== src/Mmu/Paging.antt =====
-- The data and operations of common/syscalls_traps_and_mmu/syscalls_traps_and_mmu.h. `& ~(size - 1)`
-- of a power of two is written as a division; mmap is the kernel's of Shm.Kernel, and mlock, madvise
-- and the draws of the random distribution are arguments.
use hotpathcplusplus.Base.{
  ℕ, zero, suc, ◌+◌, ◌-◌, ◌*◌, ◌/◌, Bool, not, ◌&&◌, List, map, ◌==◌, if◌then◌else◌, bit_and,
  bit_xor, update, add64, mul64,
}
use hotpathcplusplus.Shm.Kernel.{Kernel, map_failed, anywhere, anonymous, prot_read_write}

abbrev pub page_size : ℕ
page_size = 4096

abbrev pub huge_page_size : ℕ
huge_page_size = 2 * 1024 * 1024

-- VdsoNowNs() and RawSyscallNowNs(), of what the clock answered
unfoldable pub now_ns : ℕ → ℕ → ℕ
now_ns tv_sec tv_nsec = add64 (mul64 tv_sec 1000000000) tv_nsec

-- TouchPages4KiB: `n` more pages from page `p` on
unfoldable pub touch_from : (ℕ → ℕ) → ℕ → ℕ → ℕ → ℕ → ℕ
touch_from buf p zero value = buf
touch_from buf p (suc n) value =
    touch_from (update buf (p * page_size + bit_and p 63 * 64) value) (p + 1) n value

unfoldable pub touch_pages : (ℕ → ℕ) → ℕ → ℕ → ℕ → ℕ
unfolding touch_from
touch_pages buf num_pages value = touch_from buf 0 num_pages value

pub record PrefaultedArenaPool : Type 0 where
  pub size_bytes : ℕ
  pub arena : ℕ

-- `(n + size - 1) & ~(size - 1)` on 64 bits
unfoldable pub round_up : ℕ → ℕ → ℕ
round_up size n = add64 n (size - 1) / size * size

-- memset
unfoldable pub fill : (ℕ → ℕ) → ℕ → ℕ → ℕ → ℕ → ℕ
fill mem a value zero = mem
fill mem a value (suc n) = fill (update mem a value) (a + 1) value n

module _ {S : Type 0} (os : Kernel S) (mlock : ℕ → ℕ → S → S) where
  -- the constructor, with the contents of memory
  unfoldable pub new_pool : ℕ → (ℕ → ℕ) → S → PrefaultedArenaPool × (ℕ → ℕ) × S
  unfolding round_up fill
  new_pool bytes mem s =
      let size = round_up page_size bytes in
      let (p, s1) = os.mmap anywhere size prot_read_write anonymous s in
      if p == map_failed
      then (record { size_bytes = size; arena = 0 }, mem, s1)
      else (record { size_bytes = size; arena = p }, fill mem p 1 size, mlock p size s1)

  unfoldable pub destroy_pool : PrefaultedArenaPool → S → S
  destroy_pool pool s = if pool.arena == 0 then s else os.munmap pool.arena pool.size_bytes s

pub record OrderLevelSlot : Type 0 where
  pub next_slot_index : ℕ
  pub price_ticks : ℕ
  pub quantity_lots : ℕ
  pub order_count : ℕ
  pub timestamp_ns : ℕ
  pub instrument_id : ℕ
  pub venue_tag : ℕ
  pub checksum : ℕ

abbrev pub slot_size : ℕ
slot_size = 64

-- what the constructor of OrderBookArena stores into slot `i`
unfoldable pub init_slot : ℕ → OrderLevelSlot
init_slot i =
    let price = add64 10000 (bit_and i 65535) in
    let quantity = add64 100 (bit_and i 255) in
    record {
      next_slot_index = i;
      price_ticks = price;
      quantity_lots = quantity;
      order_count = add64 1 (bit_and i 7);
      timestamp_ns = mul64 i 10;
      instrument_id = bit_and i 1023;
      venue_tag = 1312904004;
      checksum = bit_xor price quantity;
    }

abbrev pub slots_per_page : ℕ
slots_per_page = page_size / slot_size

-- a draw of `page_dist` as an index into the slots
unfoldable pub slot_of_page : ℕ → ℕ
slot_of_page p = add64 (mul64 p slots_per_page) (bit_and p (slots_per_page - 1))

pub record OrderBookArena : Type 0 where
  pub raw_base : ℕ
  pub raw_len : ℕ
  pub total_bytes : ℕ
  pub slots : ℕ
  pub num_slots : ℕ
  pub random_indices : List ℕ

-- the members that the constructor sets, from what mmap gave and what the distribution draws
unfoldable pub arena_at : ℕ → ℕ → List ℕ → OrderBookArena
unfolding round_up slot_of_page
arena_at raw total draws = record {
  raw_base = raw;
  raw_len = add64 total huge_page_size;
  total_bytes = total;
  slots = round_up huge_page_size raw;
  num_slots = total / slot_size;
  random_indices = map slot_of_page draws;
}

module _ {S : Type 0} (os : Kernel S) (madvise : ℕ → ℕ → Bool → S → S) where
  unfoldable pub new_arena : ℕ → Bool → List ℕ → S → OrderBookArena × S
  unfolding arena_at round_up
  new_arena total_bytes use_hugepages draws s =
      let total = round_up huge_page_size total_bytes in
      let (raw, s1) = os.mmap anywhere (add64 total huge_page_size) prot_read_write anonymous s in
      let arena = arena_at raw total draws in (arena, madvise arena.slots total use_hugepages s1)

  unfoldable pub destroy_arena : OrderBookArena → S → S
  destroy_arena arena s =
      if not (arena.raw_base == 0) && not (arena.raw_base == map_failed)
      then os.munmap arena.raw_base arena.raw_len s
      else s
