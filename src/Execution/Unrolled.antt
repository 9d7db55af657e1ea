-- ===== src/Execution/Unrolled.antt =====
-- The unrolled sums agree with the scalar one.
use hotpathcplusplus.Base.{ℕ, ◌+◌, ◌%◌, ◌<◌, ◌≡◌, List, [], ◌∷◌, add64, u64_mod, arith}
use hotpathcplusplus.Execution.Pipeline.{
  sum_from, sum, sum_4_from, sum_4_way, sum_8_from, sum_8_way,
}

-- The sum of a list without wrap-around.
abbrev total : List ℕ → ℕ
total [] = 0
total (x ∷ xs) = x + total xs

sum_from-total :
    (acc : ℕ) (xs : List ℕ) → acc < u64_mod → sum_from acc xs ≡ (acc + total xs) % u64_mod
unfolding sum_from
sum_from-total acc [] h = omega arith
sum_from-total acc (x ∷ xs) h = omega (arith, sum_from-total (add64 acc x) xs (omega arith))

sum_4_from-total :
    (a b c d : ℕ) (xs : List ℕ) → sum_4_from a b c d xs ≡ (a + b + c + d + total xs) % u64_mod
unfolding sum_4_from
sum_4_from-total a b c d [] =
    omega (arith, sum_from-total (add64 (add64 a b) (add64 c d)) [] (omega arith))
sum_4_from-total a b c d (x ∷ []) =
    omega (arith, sum_from-total (add64 (add64 a b) (add64 c d)) (x ∷ []) (omega arith))
sum_4_from-total a b c d (x ∷ y ∷ []) =
    omega (arith, sum_from-total (add64 (add64 a b) (add64 c d)) (x ∷ y ∷ []) (omega arith))
sum_4_from-total a b c d (x ∷ y ∷ z ∷ []) =
    omega (arith, sum_from-total (add64 (add64 a b) (add64 c d)) (x ∷ y ∷ z ∷ []) (omega arith))
sum_4_from-total a b c d (x ∷ y ∷ z ∷ w ∷ xs) =
    omega (arith, sum_4_from-total (add64 a x) (add64 b y) (add64 c z) (add64 d w) xs)

-- Four accumulators give the sum that one gives, for every span, wrap-around included.
pub sum_4_way-sum : (xs : List ℕ) → sum_4_way xs ≡ sum xs
unfolding sum_4_way sum
sum_4_way-sum xs = omega (arith, sum_4_from-total 0 0 0 0 xs, sum_from-total 0 xs (omega arith))

sum_8_from-total :
    (a b c d e f g h : ℕ) (xs : List ℕ)
    → sum_8_from a b c d e f g h xs ≡ (a + b + c + d + e + f + g + h + total xs) % u64_mod
unfolding sum_8_from
sum_8_from-total a b c d e f g h [] = omega (
  arith,
  sum_from-total (add64 (add64 (add64 a b) (add64 c d)) (add64 (add64 e f) (add64 g h))) []
      (omega arith),
)
sum_8_from-total a b c d e f g h (p ∷ []) = omega (
  arith,
  sum_from-total (add64 (add64 (add64 a b) (add64 c d)) (add64 (add64 e f) (add64 g h))) (p ∷ [])
      (omega arith),
)
sum_8_from-total a b c d e f g h (p ∷ q ∷ []) = omega (
  arith,
  sum_from-total (add64 (add64 (add64 a b) (add64 c d)) (add64 (add64 e f) (add64 g h)))
      (p ∷ q ∷ []) (omega arith),
)
sum_8_from-total a b c d e f g h (p ∷ q ∷ r ∷ []) = omega (
  arith,
  sum_from-total (add64 (add64 (add64 a b) (add64 c d)) (add64 (add64 e f) (add64 g h)))
      (p ∷ q ∷ r ∷ []) (omega arith),
)
sum_8_from-total a b c d e f g h (p ∷ q ∷ r ∷ s ∷ []) = omega (
  arith,
  sum_from-total (add64 (add64 (add64 a b) (add64 c d)) (add64 (add64 e f) (add64 g h)))
      (p ∷ q ∷ r ∷ s ∷ []) (omega arith),
)
sum_8_from-total a b c d e f g h (p ∷ q ∷ r ∷ s ∷ t ∷ []) = omega (
  arith,
  sum_from-total (add64 (add64 (add64 a b) (add64 c d)) (add64 (add64 e f) (add64 g h)))
      (p ∷ q ∷ r ∷ s ∷ t ∷ []) (omega arith),
)
sum_8_from-total a b c d e f g h (p ∷ q ∷ r ∷ s ∷ t ∷ u ∷ []) = omega (
  arith,
  sum_from-total (add64 (add64 (add64 a b) (add64 c d)) (add64 (add64 e f) (add64 g h)))
      (p ∷ q ∷ r ∷ s ∷ t ∷ u ∷ []) (omega arith),
)
sum_8_from-total a b c d e f g h (p ∷ q ∷ r ∷ s ∷ t ∷ u ∷ v ∷ []) = omega (
  arith,
  sum_from-total (add64 (add64 (add64 a b) (add64 c d)) (add64 (add64 e f) (add64 g h)))
      (p ∷ q ∷ r ∷ s ∷ t ∷ u ∷ v ∷ []) (omega arith),
)
sum_8_from-total a b c d e f g h (p ∷ q ∷ r ∷ s ∷ t ∷ u ∷ v ∷ w ∷ xs) = omega (
  arith,
  sum_8_from-total (add64 a p) (add64 b q) (add64 c r) (add64 d s) (add64 e t) (add64 f u)
      (add64 g v) (add64 h w) xs,
)

-- Eight accumulators give the sum that one gives, for every span, wrap-around included.
pub sum_8_way-sum : (xs : List ℕ) → sum_8_way xs ≡ sum xs
unfolding sum_8_way sum
sum_8_way-sum xs =
    omega (arith, sum_8_from-total 0 0 0 0 0 0 0 0 xs, sum_from-total 0 xs (omega arith))
