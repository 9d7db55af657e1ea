-- ===== src/Learning/Nudge.antt =====
-- BM_FiniteDifferences_BruteForce_OW2 (episodes/ai/02_how_ai_learns/benchmark.cc): every weight is
-- nudged, the loss is computed again, and the weight is put back.
use hotpathcplusplus.Base.{ℕ, List, get_or, set, length, for_from}
use hotpathcplusplus.Learning.Mlp.{Float, TwoLayerMlp, forward}

-- The weights that a loop nudges, their gradients, and the two buffers that Forward fills.
pub record Nudging {ℓ} (D : Type ℓ) : Type ℓ where
  pub weights : List D
  pub grads : List D
  pub hidden_buf : List D
  pub pred_buf : List D

module _ {ℓ} {D : Type ℓ} (fl : Float D) (m : TwoLayerMlp D) (x target : List D) where
  -- the body of the loops, where `net` is the network with given weights
  unfoldable pub nudge :
      (net : List D → TwoLayerMlp D) (eps base_loss : D) → ℕ → Nudging D → Nudging D
  nudge net eps base_loss idx s =
      let orig = get_or s.weights idx fl.zero_value in
      let (nudged, hidden, pred) =
        forward fl (net (set s.weights idx (fl.plus orig eps))) x target s.hidden_buf s.pred_buf in
      record {
        weights = set (set s.weights idx (fl.plus orig eps)) idx orig;
        grads = set s.grads idx (fl.divide (fl.minus nudged base_loss) eps);
        hidden_buf = hidden;
        pred_buf = pred;
      }

  -- One iteration of the benchmark: the network as it leaves it.
  unfoldable pub brute_force : (eps : D) (hidden_buf pred_buf : List D) → TwoLayerMlp D
  brute_force eps hidden_buf pred_buf =
      let (base_loss, hidden, pred) = forward fl m x target hidden_buf pred_buf in
      let first =
        for_from (length m.w1) 1 0 (nudge (λ w1. record m { w1 = w1 }) eps base_loss)
          (record { weights = m.w1; grads = m.grad_w1; hidden_buf = hidden; pred_buf = pred }) in
      let second =
        for_from (length m.w2) 1 0
          (nudge (λ w2. record m { w1 = first.weights; w2 = w2 }) eps base_loss)
          (record {
            weights = m.w2;
            grads = m.grad_w2;
            hidden_buf = first.hidden_buf;
            pred_buf = first.pred_buf;
          }) in
      record m {
        w1 = first.weights;
        grad_w1 = first.grads;
        w2 = second.weights;
        grad_w2 = second.grads;
      }
