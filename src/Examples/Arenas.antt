-- ===== src/Examples/Arenas.antt =====
-- Pages, pools, arenas and the pointer chase at small sizes.
use hotpathcplusplus.Base.{
  ℕ, ◌*◌, ◌<◌, ◌≡◌, refl, ap, suc, count, true, List, [], ◌∷◌, length, arith,
}
use hotpathcplusplus.Mmu.Paging.{arena_at, huge_page_size}
use hotpathcplusplus.Mmu.Arena.{IsInside, arena_at-IsInside}
use hotpathcplusplus.Measurement.Generator.{num_elements, generate_pointer_chase_ring}
use hotpathcplusplus.Measurement.Successors.{IsShuffle}
use hotpathcplusplus.Measurement.Cycle.{follow, generate_pointer_chase_ring-cycle}

arena_at-IsInside_example : IsInside (arena_at 4096 (2 * huge_page_size) (0 ∷ 65 ∷ 1023 ∷ []))
arena_at-IsInside_example =
    arena_at-IsInside 4096 (2 * huge_page_size) (0 ∷ 65 ∷ 1023 ∷ []) refl (omega arith)
      (omega arith, (omega arith, (omega arith, tt)))

-- a shuffle that moves the first element to the end
abbrev turn : List ℕ → List ℕ
turn [] = []
turn (x ∷ []) = x ∷ []
turn (x ∷ y ∷ xs) = y ∷ turn (x ∷ xs)

turn-IsShuffle : IsShuffle turn
turn-IsShuffle = record { same_length = same_length; same_count = same_count }
  where
    same_length : (xs : List ℕ) → length (turn xs) ≡ length xs
    same_length [] = refl
    same_length (x ∷ []) = refl
    same_length (x ∷ y ∷ xs) = ap suc (same_length (x ∷ xs))

    same_count : (xs : List ℕ) (z : ℕ) → count z (turn xs) ≡ count z xs
    same_count [] z = refl
    same_count (x ∷ []) z = refl
    same_count (x ∷ y ∷ xs) z = omega (arith, same_count (x ∷ xs) z)

generate_pointer_chase_ring-cycle_example :
    let next = generate_pointer_chase_ring turn 32 true in
    let n = num_elements 32 in
    (length next ≡ n) × ((k : ℕ) × (k < n) × (follow next k 0 ≡ 5)) × (follow next n 0 ≡ 0)
unfolding num_elements
generate_pointer_chase_ring-cycle_example =
    generate_pointer_chase_ring-cycle turn turn-IsShuffle 32 true 5 (omega arith) (omega arith)
