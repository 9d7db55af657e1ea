-- ===== src/Learning/Mlp.antt =====
-- TwoLayerMlp (episodes/ai/02_how_ai_learns/benchmark.cc): the forward pass, reverse-mode
-- backpropagation, and the finite differences of BM_FiniteDifferences_BruteForce_OW2. Vectors are
-- lists, weights are row-major, and floats are an arithmetic that is a parameter.
use hotpathcplusplus.Base.{
  ℕ, ◌+◌, ◌*◌, Bool, List, get_or, set, replicate, for_from, if◌then◌else◌, zero, suc, [], ◌∷◌,
}
use hotpathcplusplus.Learning.Gemm.{add_product}

-- What the code uses of `float`.
pub record Float {ℓ} (D : Type ℓ) : Type ℓ where
  pub plus : D → D → D
  pub minus : D → D → D
  pub times : D → D → D
  pub divide : D → D → D
  pub zero_value : D
  pub half : D
  pub one : D
  pub is_positive : D → Bool
  pub is_not_positive : D → Bool
  pub of_int : ℕ → D

pub record TwoLayerMlp {ℓ} (D : Type ℓ) : Type ℓ where
  pub in_dim : ℕ
  pub hidden_dim : ℕ
  pub out_dim : ℕ
  pub w1 : List D
  pub w2 : List D
  pub grad_w1 : List D
  pub grad_w2 : List D

module _ {ℓ} {D : Type ℓ} (fl : Float D) where
  -- `n` draws of a distribution, which carries the state of its engine
  unfoldable pub draws {κ} : {G : Type κ} → (G → D × G) → ℕ → G → List D × G
  draws dist zero g = ([], g)
  draws dist (suc n) g = let (v, g1) = dist g in let (vs, g2) = draws dist n g1 in (v ∷ vs, g2)

  -- The constructor, over the two distributions and the engine that they share.
  unfoldable pub new_mlp {κ} :
      {G : Type κ} (dist1 dist2 : G → D × G) (rng : G) (in_features hidden_units out_features : ℕ)
      → TwoLayerMlp D
  new_mlp dist1 dist2 rng in_features hidden_units out_features =
      let (w1, rng1) = draws dist1 (hidden_units * in_features) rng in
      let (w2, rng2) = draws dist2 (out_features * hidden_units) rng1 in
      record {
        in_dim = in_features;
        hidden_dim = hidden_units;
        out_dim = out_features;
        w1 = w1;
        w2 = w2;
        grad_w1 = replicate (hidden_units * in_features) fl.zero_value;
        grad_w2 = replicate (out_features * hidden_units) fl.zero_value;
      }

  -- `v > 0.0f ? v : 0.0f`
  unfoldable pub relu : D → D
  relu v = if fl.is_positive v then v else fl.zero_value

  module _ (m : TwoLayerMlp D) (x target : List D) where
    -- Forward: the loop over hidden units
    unfoldable pub forward_hidden : List D → List D
    forward_hidden = for_from m.hidden_dim 1 0 (λ h hidden_out. set hidden_out h (
        relu (
          for_from m.in_dim 1 0 (add_product fl.plus fl.times fl.zero_value m.w1 x (h * m.in_dim) 0)
            fl.zero_value)))

    -- Forward: the loop over outputs, which carries the loss
    unfoldable pub forward_output : (hidden_out : List D) → ℕ → List D × D → List D × D
    forward_output hidden_out o s =
        let (pred_out, loss) = s in
        let sum =
          for_from m.hidden_dim 1 0
            (add_product fl.plus fl.times fl.zero_value m.w2 hidden_out (o * m.hidden_dim) 0)
            fl.zero_value in
        let diff = fl.minus sum (get_or target o fl.zero_value) in
        (set pred_out o sum, fl.plus loss (fl.times (fl.times fl.half diff) diff))

    -- Forward: the loss, and the buffers `hidden_out` and `pred_out` as it leaves them
    unfoldable pub forward : (hidden_out pred_out : List D) → D × List D × List D
    forward hidden_out pred_out =
        let hidden = forward_hidden hidden_out in
        let (pred, loss) =
          for_from m.out_dim 1 0 (forward_output hidden) (pred_out, fl.zero_value) in
        (fl.divide loss (fl.of_int m.out_dim), hidden, pred)

    -- BackwardReverseMode: a round of the loop over outputs, on `delta_out_buf` and `grad_w2`
    unfoldable pub backward_output :
        (hidden_buf pred_buf : List D) → ℕ → List D × List D → List D × List D
    backward_output hidden_buf pred_buf o s =
        let (delta_out_buf, grad_w2) = s in
        let inv_out = fl.divide fl.one (fl.of_int m.out_dim) in
        let delta = set delta_out_buf o (
          fl.times (fl.minus (get_or pred_buf o fl.zero_value) (get_or target o fl.zero_value))
            inv_out) in
        (
          delta,
          for_from m.hidden_dim 1 0
              (λ h grad.
                set grad (o * m.hidden_dim + h)
                  (fl.times (get_or delta o fl.zero_value) (get_or hidden_buf h fl.zero_value)))
              grad_w2,
        )

    -- BackwardReverseMode: a round of the loop over hidden units, on `delta_hid_buf` and `grad_w1`
    unfoldable pub backward_hidden :
        (hidden_buf delta_out_buf : List D) → ℕ → List D × List D → List D × List D
    backward_hidden hidden_buf delta_out_buf h s =
        let (delta_hid_buf, grad_w1) = s in
        let upstream =
          for_from m.out_dim 1 0
            (λ o sum. fl.plus sum (
              fl.times (get_or m.w2 (o * m.hidden_dim + h) fl.zero_value)
                (get_or delta_out_buf o fl.zero_value)))
            fl.zero_value in
        if fl.is_not_positive (get_or hidden_buf h fl.zero_value)
        then (set delta_hid_buf h fl.zero_value, grad_w1)
        else (
          set delta_hid_buf h upstream,
          for_from m.in_dim 1 0
              (λ i grad. set grad (h * m.in_dim + i) (fl.times upstream (get_or x i fl.zero_value)))
              grad_w1,
        )

    -- BackwardReverseMode: the network with its gradients; the buffers are scratch
    unfoldable pub backward :
        (hidden_buf pred_buf delta_out_buf delta_hid_buf : List D) → TwoLayerMlp D
    backward hidden_buf pred_buf delta_out_buf delta_hid_buf =
        let (loss, hidden, pred) = forward hidden_buf pred_buf in
        let (delta_out, grad_w2) =
          for_from m.out_dim 1 0 (backward_output hidden pred) (delta_out_buf, m.grad_w2) in
        let (delta_hid, grad_w1) =
          for_from m.hidden_dim 1 0 (backward_hidden hidden delta_out) (delta_hid_buf, m.grad_w1) in
        record m { grad_w1 = grad_w1; grad_w2 = grad_w2 }
