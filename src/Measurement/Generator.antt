-- ===== src/Measurement/Generator.antt =====
-- DatasetGenerator of common/measurement/entropy_generator.h and FlushCacheRange of
-- common/measurement/measurement_harness.h. The draws of the distribution, std::sort and std::shuffle
-- are arguments; a count that std::iota leaves below 2^31 fits its int.
use hotpathcplusplus.Base.{
  ℕ, zero, suc, ◌+◌, ◌-◌, ◌/◌, ◌%◌, ◌^◌, Bool, List, [], ◌∷◌, take, get_or, set, replicate, ltb,
  if◌then◌else◌,
}

-- the first `count` draws of the generator
unfoldable pub generate_uniform_random {ℓ} : {A : Type ℓ} → ℕ → List A → List A
generate_uniform_random count draws = take count draws

unfoldable pub generate_sorted {ℓ} : {A : Type ℓ} → (List A → List A) → ℕ → List A → List A
unfolding generate_uniform_random
generate_sorted sort count draws = sort (generate_uniform_random count draws)

unfoldable pub num_elements : ℕ → ℕ
num_elements size_bytes = if ltb (size_bytes / 4) 2 then 2 else size_bytes / 4

-- `n` consecutive uint32_t values from `a` on
unfoldable pub iota : ℕ → ℕ → List ℕ
iota a zero = []
iota a (suc n) = a % 2 ^ 32 ∷ iota (a + 1) n

-- shuffle(begin() + 1, end())
unfoldable pub shuffle_tail : (List ℕ → List ℕ) → List ℕ → List ℕ
shuffle_tail shuffle [] = []
shuffle_tail shuffle (x ∷ xs) = x ∷ shuffle xs

-- The loop over `next_ptrs`: `m` more rounds from round `i` on.
unfoldable pub link : List ℕ → List ℕ → ℕ → ℕ → List ℕ
link next indices i zero = next
link next indices i (suc m) =
    link (set next (get_or indices i 0) (get_or indices (i + 1) 0)) indices (i + 1) m

-- the loop and the assignment that closes the cycle
unfoldable pub close_ring : ℕ → List ℕ → List ℕ
unfolding link
close_ring n indices =
    set (link (replicate {A = ℕ} n 0) indices 0 (n - 1)) (get_or indices (n - 1) 0)
      (get_or indices 0 0)

unfoldable pub generate_pointer_chase_ring : (List ℕ → List ℕ) → ℕ → Bool → List ℕ
unfolding num_elements iota shuffle_tail close_ring
generate_pointer_chase_ring shuffle size_bytes randomized =
    let n = num_elements size_bytes in
    let indices = iota 0 n in
    close_ring n (if randomized then shuffle_tail shuffle indices else indices)

-- FlushCacheRange: the offsets that are flushed, from `offset` on; `fuel` bounds the rounds
unfoldable pub flush_cache_range : ℕ → ℕ → ℕ → List ℕ
flush_cache_range zero offset bytes = []
flush_cache_range (suc fuel) offset bytes =
    let rest = flush_cache_range fuel (offset + 64) bytes in
    if ltb offset bytes then offset ∷ rest else []
