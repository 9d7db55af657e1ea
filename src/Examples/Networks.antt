-- ===== src/Examples/Networks.antt =====
-- The theorems on the kernels of episode 02 at small networks, over the native numbers.
use hotpathcplusplus.Base.{
  ℕ, ◌+◌, ◌-◌, ◌*◌, ◌/◌, ◌≡◌, refl, List, [], ◌∷◌, get_or, set, if◌then◌else◌, ltb, not, arith,
}
use hotpathcplusplus.Learning.Gemm.{gemv, tiled_gemm}
use hotpathcplusplus.Learning.Tiles.{tiled_gemm-gemv}
use hotpathcplusplus.Learning.Mlp.{Float, TwoLayerMlp, backward}
use hotpathcplusplus.Learning.Backprop.{hidden_unit, delta, upstream, backward_gradients}
use hotpathcplusplus.Learning.Nudge.{brute_force}
use hotpathcplusplus.Learning.Differences.{loss, brute_force_gradients}

abbrev numbers : Float ℕ
numbers = record {
  plus = ◌+◌;
  minus = ◌-◌;
  times = ◌*◌;
  divide = ◌/◌;
  zero_value = 0;
  half = 1;
  one = 1;
  is_positive = ltb 0;
  is_not_positive = λ v. not (ltb 0 v);
  of_int = λ n. n;
}

abbrev layer : List ℕ
layer = 1 ∷ 2 ∷ 3 ∷ 4 ∷ 5 ∷ 6 ∷ 7 ∷ 8 ∷ []

abbrev samples : List ℕ
samples = 1 ∷ 0 ∷ 2 ∷ 0 ∷ 0 ∷ 3 ∷ 0 ∷ 1 ∷ []

-- two samples, two outputs and four inputs, in tiles of two
tiled_gemm-gemv_example :
    tiled_gemm ◌+◌ ◌*◌ 0 2 2 2 1 layer samples (9 ∷ 9 ∷ 9 ∷ 9 ∷ [])
    ≡ gemv ◌+◌ ◌*◌ 0 2 2 2 1 layer samples (0 ∷ 0 ∷ 0 ∷ 0 ∷ [])
tiled_gemm-gemv_example =
    tiled_gemm-gemv ◌+◌ ◌*◌ 0 2 2 2 1 layer samples (9 ∷ 9 ∷ 9 ∷ 9 ∷ []) (0 ∷ 0 ∷ 0 ∷ 0 ∷ []) refl
      refl

-- One unit is alive, the other dead; the gradients hold what an earlier sweep left.
abbrev net : TwoLayerMlp ℕ
net = record {
  in_dim = 2;
  hidden_dim = 2;
  out_dim = 1;
  w1 = 1 ∷ 2 ∷ 0 ∷ 0 ∷ [];
  w2 = 3 ∷ 1 ∷ [];
  grad_w1 = 7 ∷ 7 ∷ 7 ∷ 7 ∷ [];
  grad_w2 = 0 ∷ 0 ∷ [];
}

abbrev input : List ℕ
input = 1 ∷ 1 ∷ []

abbrev goal : List ℕ
goal = 4 ∷ []

backward_gradients_example :
    (get_or
        (backward numbers net input goal (0 ∷ 0 ∷ []) (0 ∷ []) (0 ∷ []) (0 ∷ 0 ∷ [])).grad_w2
        1
        0
      ≡ delta numbers net input goal 0 * hidden_unit numbers net input goal 1)
    × (get_or
          (backward numbers net input goal (0 ∷ 0 ∷ []) (0 ∷ []) (0 ∷ []) (0 ∷ 0 ∷ [])).grad_w1
          3
          0
        ≡ (if not (ltb 0 (hidden_unit numbers net input goal 1))
            then 7
            else upstream numbers net input goal 1 * 1))
backward_gradients_example =
    backward_gradients numbers net input goal (0 ∷ 0 ∷ []) refl (0 ∷ []) refl refl (0 ∷ []) refl
      refl 1 1 (omega arith) (omega arith) (0 ∷ 0 ∷ []) 0 (omega arith)

brute_force_gradients_example :
    ((brute_force numbers net input goal 1 (0 ∷ 0 ∷ []) (0 ∷ [])).w1 ≡ net.w1)
    × ((brute_force numbers net input goal 1 (0 ∷ 0 ∷ []) (0 ∷ [])).w2 ≡ net.w2)
    × (get_or (brute_force numbers net input goal 1 (0 ∷ 0 ∷ []) (0 ∷ [])).grad_w1 0 0
        ≡ (loss numbers input goal (record net { w1 = set net.w1 0 2 })
            - loss numbers input goal net)
          / 1)
    × (get_or (brute_force numbers net input goal 1 (0 ∷ 0 ∷ []) (0 ∷ [])).grad_w2 1 0
        ≡ (loss numbers input goal (record net { w2 = set net.w2 1 2 })
            - loss numbers input goal net)
          / 1)
brute_force_gradients_example =
    brute_force_gradients numbers input goal net 1 (0 ∷ 0 ∷ []) (0 ∷ []) 0 1 refl refl refl
      (omega arith) (omega arith)
