-- ===== src/Execution/Filter.antt =====
-- RunBaseline and RunOptimizedChallenge of common/execution/challenge.cc without their clocks: a
-- first-order recursive filter, one sample at a time and four at a time. The samples and the outputs
-- are lists, and the arithmetic of doubles is a parameter.
use hotpathcplusplus.Base.{List, [], ◌∷◌}
use hotpathcplusplus.Execution.Floats.{sum_float}

pub record FilterArithmetic {ℓ} (D : Type ℓ) : Type ℓ where
  pub plus : D → D → D
  pub times : D → D → D
  pub zero_value : D

module _ {ℓ} {D : Type ℓ} (fa : FilterArithmetic D) (alpha : D) where
  open fa use {plus, times, zero_value}

  -- the loop `prev = x[i] + alpha * prev`, from a value of `prev`; also the tail loop of
  -- RunOptimizedChallenge
  unfoldable pub filter_from : D → List D → List D
  filter_from prev [] = []
  filter_from prev (x ∷ xs) = let y = plus x (times alpha prev) in y ∷ filter_from y xs

  -- the checksum of RunBaseline
  unfoldable pub run_baseline : List D → D
  run_baseline xs = sum_float plus zero_value (filter_from zero_value xs)

  -- the outputs of one round of four samples, with `a2`, `a3` and `a4` computed before the loop
  unfoldable pub lookahead0 : (y_prev x0 : D) → D
  lookahead0 y_prev x0 = plus x0 (times alpha y_prev)

  unfoldable pub lookahead1 : (a2 y_prev x0 x1 : D) → D
  lookahead1 a2 y_prev x0 x1 = plus (plus x1 (times alpha x0)) (times a2 y_prev)

  unfoldable pub lookahead2 : (a2 a3 y_prev x0 x1 x2 : D) → D
  lookahead2 a2 a3 y_prev x0 x1 x2 =
      plus (plus (plus x2 (times alpha x1)) (times a2 x0)) (times a3 y_prev)

  unfoldable pub lookahead3 : (a2 a3 a4 y_prev x0 x1 x2 x3 : D) → D
  lookahead3 a2 a3 a4 y_prev x0 x1 x2 x3 =
      plus (plus (plus (plus x3 (times alpha x2)) (times a2 x1)) (times a3 x0)) (times a4 y_prev)

  -- the loop over rounds of four samples, then the tail loop
  unfoldable pub blocks_from : (a2 a3 a4 y_prev : D) → List D → List D
  blocks_from a2 a3 a4 y_prev (x0 ∷ x1 ∷ x2 ∷ x3 ∷ xs) =
      let y3 = lookahead3 a2 a3 a4 y_prev x0 x1 x2 x3 in
      lookahead0 y_prev x0
      ∷ lookahead1 a2 y_prev x0 x1
      ∷ lookahead2 a2 a3 y_prev x0 x1 x2
      ∷ y3
      ∷ blocks_from a2 a3 a4 y3 xs
  blocks_from a2 a3 a4 y_prev xs = filter_from y_prev xs

  unfoldable pub filter_blocks : List D → List D
  filter_blocks xs =
      let a2 = times alpha alpha in
      let a3 = times a2 alpha in let a4 = times a3 alpha in blocks_from a2 a3 a4 zero_value xs

  -- the checksum of RunOptimizedChallenge
  unfoldable pub run_optimized_challenge : List D → D
  run_optimized_challenge xs = sum_float plus zero_value (filter_blocks xs)
