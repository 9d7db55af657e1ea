-- ===== src/Execution/Pipeline.antt =====
-- DependentPipeline and IndependentPipeline over spans of std::uint64_t. A span is a list, and an
-- index loop consumes it from the front: a loop of stride k stops where fewer than k are left.
use hotpathcplusplus.Base.{ℕ, List, [], ◌∷◌, bit_xor, add64, mul64}

-- AccumulateHash, from an accumulator
unfoldable pub hash_from : ℕ → List ℕ → ℕ
hash_from acc [] = acc
hash_from acc (x ∷ xs) = hash_from (bit_xor (mul64 acc 33) x) xs

unfoldable pub accumulate_hash : List ℕ → ℕ
accumulate_hash xs = hash_from 0 xs

-- Sum, from an accumulator; also the loop over the tail of Sum4Way and Sum8Way
unfoldable pub sum_from : ℕ → List ℕ → ℕ
sum_from acc [] = acc
sum_from acc (x ∷ xs) = sum_from (add64 acc x) xs

unfoldable pub sum : List ℕ → ℕ
sum xs = sum_from 0 xs

unfoldable pub sum_4_from : (acc0 acc1 acc2 acc3 : ℕ) → List ℕ → ℕ
sum_4_from acc0 acc1 acc2 acc3 (a ∷ b ∷ c ∷ d ∷ xs) =
    sum_4_from (add64 acc0 a) (add64 acc1 b) (add64 acc2 c) (add64 acc3 d) xs
sum_4_from acc0 acc1 acc2 acc3 xs = sum_from (add64 (add64 acc0 acc1) (add64 acc2 acc3)) xs

unfoldable pub sum_4_way : List ℕ → ℕ
sum_4_way xs = sum_4_from 0 0 0 0 xs

unfoldable pub sum_8_from : (acc0 acc1 acc2 acc3 acc4 acc5 acc6 acc7 : ℕ) → List ℕ → ℕ
sum_8_from acc0 acc1 acc2 acc3 acc4 acc5 acc6 acc7 (a ∷ b ∷ c ∷ d ∷ e ∷ f ∷ g ∷ h ∷ xs) =
    sum_8_from (add64 acc0 a) (add64 acc1 b) (add64 acc2 c) (add64 acc3 d) (add64 acc4 e)
      (add64 acc5 f) (add64 acc6 g) (add64 acc7 h) xs
sum_8_from acc0 acc1 acc2 acc3 acc4 acc5 acc6 acc7 xs =
    sum_from
      (add64 (add64 (add64 acc0 acc1) (add64 acc2 acc3))
        (add64 (add64 acc4 acc5) (add64 acc6 acc7)))
      xs

unfoldable pub sum_8_way : List ℕ → ℕ
sum_8_way xs = sum_8_from 0 0 0 0 0 0 0 0 xs
