-- ===== src/Examples/Words.antt =====
-- Identifiers that two threads take.
use hotpathcplusplus.Base.{[], ◌∷◌, arith}
use hotpathcplusplus.Mesi.Ids.{new_generator, next_ids}
use hotpathcplusplus.Mesi.Unique.{Distinct, next_ids-Distinct}

next_ids-Distinct_example : Distinct (next_ids 2 new_generator (0 ∷ 1 ∷ 0 ∷ 0 ∷ []))
next_ids-Distinct_example = next_ids-Distinct 2 (0 ∷ 1 ∷ 0 ∷ 0 ∷ []) (omega arith) (omega arith)
