-- ===== src/Dispatch/Float.antt =====
-- The operations of `double` that the dispatch code uses. IEEE arithmetic is not modelled: a record
-- of operations is a parameter, and nothing is assumed of it.
use hotpathcplusplus.Base.{ℕ, Bool}

pub record Float {ℓ} (D : Type ℓ) : Type ℓ where
  pub zero_value : D
  pub one_value : D
  pub of_int : ℕ → D  -- the conversion from uint32_t
  pub plus : D → D → D
  pub times : D → D → D
  pub at_most : D → D → Bool
