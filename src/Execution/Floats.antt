-- ===== src/Execution/Floats.antt =====
-- The sums of doubles, over an arithmetic that is a parameter: nothing is assumed of the addition.
use hotpathcplusplus.Base.{List, [], ◌∷◌}

module _ {ℓ} {D : Type ℓ} (plus : D → D → D) (zero_value : D) where
  -- SumFloat, from an accumulator; also the tail loop of SumFloat4Way
  unfoldable pub sum_float_from : D → List D → D
  sum_float_from acc [] = acc
  sum_float_from acc (x ∷ xs) = sum_float_from (plus acc x) xs

  unfoldable pub sum_float : List D → D
  sum_float xs = sum_float_from zero_value xs

  unfoldable pub sum_float_4_from : (acc0 acc1 acc2 acc3 : D) → List D → D
  sum_float_4_from acc0 acc1 acc2 acc3 (a ∷ b ∷ c ∷ d ∷ xs) =
      sum_float_4_from (plus acc0 a) (plus acc1 b) (plus acc2 c) (plus acc3 d) xs
  sum_float_4_from acc0 acc1 acc2 acc3 xs =
      sum_float_from (plus (plus acc0 acc1) (plus acc2 acc3)) xs

  unfoldable pub sum_float_4_way : List D → D
  sum_float_4_way xs = sum_float_4_from zero_value zero_value zero_value zero_value xs
