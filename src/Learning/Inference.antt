-- ===== src/Learning/Inference.antt =====
-- Bias and activation in three trips over memory and in one, as BM_Inference_Unfused_3Trips and
-- BM_Inference_Fused_SingleTrip have them (episodes/ai/02_how_ai_learns/benchmark.cc). The source has
-- 1024 elements.
use hotpathcplusplus.Base.{
  ℕ, ◌<◌, ◌≡◌, sym, ap, subst, ◌∙◌, List, get_or, set, length, for_from, if◌then◌else◌,
}
use hotpathcplusplus.Base.Cells.{get_or-ext, stores, stores-cell, stores-length}
use hotpathcplusplus.Learning.Mlp.{Float}

module _ {ℓ} {D : Type ℓ} (fl : Float D) (n : ℕ) (z bias : List D) where
  unfoldable pub unfused : (temp out : List D) → List D
  unfused temp out =
      let temp1 =
        for_from n 1 0
          (λ i temp. set temp i (fl.plus (get_or z i fl.zero_value) (get_or bias i fl.zero_value)))
          temp in
      for_from n 1 0
        (λ i out. set out i (
          if fl.is_positive (get_or temp1 i fl.zero_value)
          then get_or temp1 i fl.zero_value
          else fl.zero_value))
        out

  unfoldable pub fused : List D → List D
  fused = for_from n 1 0 (λ i out.
      let val = fl.plus (get_or z i fl.zero_value) (get_or bias i fl.zero_value) in
      set out i (if fl.is_positive val then val else fl.zero_value))

  -- The two bodies, told by the index.
  abbrev sum_at : ℕ → D
  sum_at i = fl.plus (get_or z i fl.zero_value) (get_or bias i fl.zero_value)

  abbrev rectify : D → D
  rectify v = if fl.is_positive v then v else fl.zero_value

  abbrev through : List D → ℕ → D
  through temp i = rectify (get_or (stores fl.zero_value n sum_at temp) i fl.zero_value)

  -- Keeping the sum in a register gives what the trip through memory gives, from any two outputs and
  -- any intermediate vector of n elements.
  pub fused-unfused :
      (temp out out' : List D)
      → length temp ≡ n
      → length out ≡ n
      → length out' ≡ n
      → fused out ≡ unfused temp out'
  unfolding fused unfused
  fused-unfused temp out out' h k k' =
      get_or-ext fl.zero_value (stores fl.zero_value n (λ i. rectify (sum_at i)) out)
        (stores fl.zero_value n (through temp) out')
        (stores-length fl.zero_value n (λ i. rectify (sum_at i)) out
          ∙ k
          ∙ sym (stores-length fl.zero_value n (through temp) out' ∙ k'))
        (λ p lt.
          let inside =
            subst (λ m. p < m) (stores-length fl.zero_value n (λ i. rectify (sum_at i)) out ∙ k)
              lt in
          stores-cell fl.zero_value n (λ i. rectify (sum_at i)) out p inside k
          ∙ ap rectify (sym (stores-cell fl.zero_value n sum_at temp p inside h))
          ∙ sym (stores-cell fl.zero_value n (through temp) out' p inside k'))
