-- ===== src/Mmu/Arena.antt =====
-- OrderBookArena: where its slots and its lookup indices lie.
use hotpathcplusplus.Base.{
  ℕ, ◌+◌, ◌*◌, ◌/◌, ◌%◌, ◌^◌, ◌≤◌, ◌<◌, ◌≡◌, List, [], ◌∷◌, map, All, arith,
}
use hotpathcplusplus.Base.Bits.{bit_and-le}
use hotpathcplusplus.Mmu.Paging.{
  OrderBookArena, arena_at, slot_of_page, round_up, huge_page_size, page_size, slot_size,
}

-- The slots lie in the mapping, on a huge page boundary; each index is that of a slot.
pub record IsInside (a : OrderBookArena) : Type 0 where
  pub aligned : a.slots % huge_page_size ≡ 0
  pub after : a.raw_base ≤ a.slots
  pub before : a.slots + a.total_bytes ≤ a.raw_base + a.raw_len
  pub slots_fit : a.num_slots * slot_size ≤ a.total_bytes
  pub indices : All (λ i. i < a.num_slots) a.random_indices

-- An index is a slot of its page.
slot_of_page-page :
    (total p : ℕ)
    → total % huge_page_size ≡ 0
    → total < 2 ^ 63
    → p < total / page_size
    → slot_of_page p < total / slot_size
unfolding slot_of_page
slot_of_page-page total p whole small h = omega (arith, bit_and-le p 63)

slots_of_pages :
    (total : ℕ) (draws : List ℕ)
    → total % huge_page_size ≡ 0
    → total < 2 ^ 63
    → All (λ p. p < total / page_size) draws
    → All (λ i. i < total / slot_size) (map slot_of_page draws)
slots_of_pages total [] whole small h = tt
slots_of_pages total (p ∷ ps) whole small (h, hs) =
    (slot_of_page-page total p whole small h, slots_of_pages total ps whole small hs)

-- In a mapping of the arena's length below 2^63, the aligned slots fit, and the lookup indices are
-- those of slots, if each draw is a page of the arena. The arena is a whole number of huge pages.
pub arena_at-IsInside :
    (raw total : ℕ) (draws : List ℕ)
    → total % huge_page_size ≡ 0
    → raw + (total + huge_page_size) < 2 ^ 63
    → All (λ p. p < total / page_size) draws
    → IsInside (arena_at raw total draws)
unfolding arena_at round_up
arena_at-IsInside raw total draws whole small h = record {
  aligned = omega arith;
  after = omega arith;
  before = omega arith;
  slots_fit = omega arith;
  indices = slots_of_pages total draws whole (omega arith) h;
}
