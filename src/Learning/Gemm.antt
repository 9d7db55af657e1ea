-- ===== src/Learning/Gemm.antt =====
-- The matrix kernels of episode 02 (episodes/ai/02_how_ai_learns/benchmark.cc): 64 samples pushed
-- through one layer sample by sample, and the same layer tile by tile. Floats are an arithmetic that
-- is a parameter, of which nothing is assumed. The batch, the tile and the number of tiles are
-- arguments; the source has 64, 16 and 16 by 16.
use hotpathcplusplus.Base.{ℕ, ◌+◌, ◌*◌, List, get_or, set, length, replicate, for_from}

module _ {ℓ} {D : Type ℓ} (plus times : D → D → D) (zero_value : D) where
  -- `sum += w[w_row + i] * x[x_row + i]`
  unfoldable pub add_product : (w x : List D) (w_row x_row : ℕ) → ℕ → D → D
  add_product w x w_row x_row i sum =
      plus sum (times (get_or w (w_row + i) zero_value) (get_or x (x_row + i) zero_value))

  module _ (batch tile in_tiles out_tiles : ℕ) (w x : List D) where
    abbrev pub k_in : ℕ
    k_in = in_tiles * tile

    abbrev pub k_out : ℕ
    k_out = out_tiles * tile

    -- the body of the loop over `o` for sample `b` in BM_PureSGD_Batch1_GEMV_64Samples
    unfoldable pub gemv_cell : (b o : ℕ) → List D → List D
    gemv_cell b o out =
        set out (b * k_out + o)
          (for_from k_in 1 0 (add_product w x (o * k_in) (b * k_in)) zero_value)

    unfoldable pub gemv : List D → List D
    gemv = for_from batch 1 0 (λ b. for_from k_out 1 0 (gemv_cell b))

    -- the body of the loop over `o` for sample `b` and the input tile at `i0` in
    -- BM_MiniBatch64_Tiled_GEMM_64Samples
    unfoldable pub tile_cell : (i0 b o : ℕ) → List D → List D
    tile_cell i0 b o out = set out (b * k_out + o) (
        for_from tile 1 i0 (add_product w x (o * k_in) (b * k_in))
          (get_or out (b * k_out + o) zero_value))

    unfoldable pub tiled_gemm : List D → List D
    tiled_gemm out =
        for_from out_tiles tile 0
          (λ o0.
            for_from in_tiles tile 0
              (λ i0. for_from batch 1 0 (λ b. for_from tile 1 o0 (tile_cell i0 b))))
          (replicate (length out) zero_value)
