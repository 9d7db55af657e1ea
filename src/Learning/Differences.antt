-- ===== src/Learning/Differences.antt =====
-- The gradients of the brute-force finite differences, and that they leave the weights alone.
use hotpathcplusplus.Base.{
  ℕ, suc, zero, ◌+◌, ◌*◌, ◌<◌, ◌≡◌, refl, sym, ap, ap₂, ◌∙◌, List, [], ◌∷◌, get_or, set, length,
  for_from, loop_every, range_once, arith,
}
use hotpathcplusplus.Base.Cells.{IsSized, set-here, set-away, stores-length}
use hotpathcplusplus.Learning.Gemm.{add_product}
use hotpathcplusplus.Learning.Mlp.{
  Float, TwoLayerMlp, relu, forward_hidden, forward_output, forward,
}
use hotpathcplusplus.Learning.Backprop.{output, hidden, buffer_sum-output}
use hotpathcplusplus.Learning.Nudge.{Nudging, nudge, brute_force}

-- Nudging a weight and putting it back changes nothing.
set_restore {ℓ} :
    {D : Type ℓ} (xs : List D) (i : ℕ) (v d : D) → set (set xs i v) i (get_or xs i d) ≡ xs
set_restore [] i v d = refl
set_restore (x ∷ xs) zero v d = refl
set_restore (x ∷ xs) (suc i) v d = ap (λ ys. x ∷ ys) (set_restore xs i v d)

module _ {ℓ} {D : Type ℓ} (fl : Float D) (x target : List D) where
  -- The mean squared error, without buffers.
  unfoldable pub loss : TwoLayerMlp D → D
  loss m =
      fl.divide
        (for_from m.out_dim 1 0
          (λ o sum. fl.plus sum (
            fl.times
              (fl.times fl.half (fl.minus (output fl m x target o) (get_or target o fl.zero_value)))
              (fl.minus (output fl m x target o) (get_or target o fl.zero_value))))
          fl.zero_value)
        (fl.of_int m.out_dim)

  module _ (m : TwoLayerMlp D) (hidden_buf pred_buf : List D)
      (h_hidden : length hidden_buf ≡ m.hidden_dim) where
    -- Forward computes it, whatever its buffers held,
    forward-loss : (forward fl m x target hidden_buf pred_buf).0 ≡ loss m
    unfolding forward forward_output loss
    forward-loss =
        ap (λ (v : D). fl.divide v (fl.of_int m.out_dim))
          (loop_every (λ (s : List D × D). Unit {ℓ}) (λ (s : List D × D). s.1) m.out_dim 1 0
            (forward_output fl m x target (hidden fl m x target hidden_buf h_hidden))
            (λ o sum. fl.plus sum (
              fl.times
                (fl.times fl.half
                  (fl.minus (output fl m x target o) (get_or target o fl.zero_value)))
                (fl.minus (output fl m x target o) (get_or target o fl.zero_value))))
            (λ t lt s v. (
              tt,
              ap
                  (λ (u : D). fl.plus s.1 (
                    fl.times
                      (fl.times fl.half (fl.minus u (get_or target (0 + t * 1) fl.zero_value)))
                      (fl.minus u (get_or target (0 + t * 1) fl.zero_value))))
                  (buffer_sum-output fl m x target hidden_buf h_hidden (0 + t * 1)),
            ))
            (pred_buf, fl.zero_value) tt).1

    -- and keeps the length of the first.
    forward-hidden_length : length (forward fl m x target hidden_buf pred_buf).1 ≡ m.hidden_dim
    unfolding forward forward_hidden
    forward-hidden_length =
        stores-length fl.zero_value m.hidden_dim
          (λ (h : ℕ). relu fl (
            for_from m.in_dim 1 0
              (add_product fl.plus fl.times fl.zero_value m.w1 x (h * m.in_dim) 0) fl.zero_value))
          hidden_buf
        ∙ h_hidden

  -- One of the two loops, over the networks that a vector of weights gives.
  module _ (m : TwoLayerMlp D) (net : List D → TwoLayerMlp D) (eps base_loss : D) (weights : List D)
      (width : (w : List D) → (net w).hidden_dim ≡ m.hidden_dim) where
    abbrev round : ℕ → Nudging D → Nudging D
    round = nudge fl m x target net eps base_loss

    -- The difference quotient of a weight.
    abbrev quotient : ℕ → D
    quotient p =
        fl.divide
          (fl.minus (loss (net (set weights p (fl.plus (get_or weights p fl.zero_value) eps))))
            base_loss)
          eps

    module _ (p : ℕ) (lt : p < length weights) where
      abbrev Restored : Nudging D → Type ℓ
      Restored s =
          (s.weights ≡ weights)
          × IsSized fl.zero_value (length weights) p s.grads
          × (length s.hidden_buf ≡ m.hidden_dim)

      abbrev gradient : Nudging D → D
      gradient s = get_or s.grads p fl.zero_value

      round-frame :
          (k : ℕ) (s : Nudging D)
          → Restored s
          → ((round k s).weights ≡ weights)
            × (length (round k s).hidden_buf ≡ m.hidden_dim)
            × ((round k s).grads ≡ set s.grads k (quotient k))
      unfolding nudge
      round-frame k s (e, sized, h) = (
        set_restore s.weights k (fl.plus (get_or s.weights k fl.zero_value) eps) fl.zero_value ∙ e,
        forward-hidden_length
              (net (set s.weights k (fl.plus (get_or s.weights k fl.zero_value) eps))) s.hidden_buf
              s.pred_buf (h ∙ sym (width _))
            ∙ width _,
        ap (λ (v : D). set s.grads k (fl.divide (fl.minus v base_loss) eps))
            (forward-loss (net (set s.weights k (fl.plus (get_or s.weights k fl.zero_value) eps)))
                s.hidden_buf s.pred_buf (h ∙ sym (width _))
              ∙ ap (λ (w : List D). loss (net (set w k (fl.plus (get_or w k fl.zero_value) eps))))
                  e),
      )

      loop-gradient :
          (s : Nudging D)
          → Restored s
          → let s' = for_from (length weights) 1 0 round s in
            Restored s' × (gradient s' ≡ quotient p)
      loop-gradient =
          range_once Restored gradient (length weights) 0 round (λ v. quotient p) p (omega arith)
            (omega arith)
            (λ s v.
              let (e, h, g) = round-frame p s v in
              let (sized, q) =
                set-here fl.zero_value (length weights) p p (λ v. quotient p) refl lt s.grads v.1 in
              (
                (e, (tt, ap length g ∙ sized.1), h),
                ap (λ (gs : List D). get_or gs p fl.zero_value) g ∙ q,
              ))
            (λ k le lt' w s v.
              let (e, h, g) = round-frame k s v in
              let (sized, q) =
                set-away fl.zero_value (length weights) p k (λ gs. quotient k) w (omega arith)
                  s.grads v.1 in
              (
                (e, (tt, ap length g ∙ sized.1), h),
                ap (λ (gs : List D). get_or gs p fl.zero_value) g ∙ q,
              ))

  -- One iteration of the finite differences, for every weight of either layer, with a buffer of
  -- hidden units and gradients of the right lengths: the weights are back at what they were, and each
  -- gradient is the difference between the loss with that one weight nudged and the loss, over eps.
  pub brute_force_gradients :
      (m : TwoLayerMlp D) (eps : D) (hidden_buf pred_buf : List D) (p q : ℕ)
      → length hidden_buf ≡ m.hidden_dim
      → length m.grad_w1 ≡ length m.w1
      → length m.grad_w2 ≡ length m.w2
      → p < length m.w1
      → q < length m.w2
      → ((brute_force fl m x target eps hidden_buf pred_buf).w1 ≡ m.w1)
        × ((brute_force fl m x target eps hidden_buf pred_buf).w2 ≡ m.w2)
        × (get_or (brute_force fl m x target eps hidden_buf pred_buf).grad_w1 p fl.zero_value
            ≡ fl.divide
                (fl.minus
                  (loss (record m { w1 = set m.w1 p (fl.plus (get_or m.w1 p fl.zero_value) eps) }))
                  (loss m))
                eps)
        × (get_or (brute_force fl m x target eps hidden_buf pred_buf).grad_w2 q fl.zero_value
            ≡ fl.divide
                (fl.minus
                  (loss (record m { w2 = set m.w2 q (fl.plus (get_or m.w2 q fl.zero_value) eps) }))
                  (loss m))
                eps)
  unfolding brute_force
  brute_force_gradients m eps hidden_buf pred_buf p q h g1 g2 lt lt' =
      let base = forward fl m x target hidden_buf pred_buf in
      let ((kept, sized, h1), first) =
        loop-gradient m (λ w1. record m { w1 = w1 }) eps base.0 m.w1 (λ w. refl) p lt
          (record { weights = m.w1; grads = m.grad_w1; hidden_buf = base.1; pred_buf = base.2 })
          (refl, (tt, g1), forward-hidden_length m hidden_buf pred_buf h) in
      let after =
        for_from (length m.w1) 1 0 (nudge fl m x target (λ w1. record m { w1 = w1 }) eps base.0)
          (record { weights = m.w1; grads = m.grad_w1; hidden_buf = base.1; pred_buf = base.2 }) in
      let ((kept', sized', h2), second) =
        loop-gradient m (λ w2. record m { w1 = after.weights; w2 = w2 }) eps base.0 m.w2 (λ w. refl)
          q lt'
          (record {
            weights = m.w2;
            grads = m.grad_w2;
            hidden_buf = after.hidden_buf;
            pred_buf = after.pred_buf;
          })
          (refl, (tt, g2), h1) in
      (
        kept,
        kept',
        first
            ∙ ap
                (λ (l : D).
                  fl.divide
                    (fl.minus
                      (loss
                        (record m { w1 = set m.w1 p (fl.plus (get_or m.w1 p fl.zero_value) eps) }))
                      l)
                    eps)
                (forward-loss m hidden_buf pred_buf h),
        second
            ∙ ap₂
                (λ (w : List D) (l : D).
                  fl.divide
                    (fl.minus
                      (loss (record m {
                        w1 = w;
                        w2 = set m.w2 q (fl.plus (get_or m.w2 q fl.zero_value) eps);
                      }))
                      l)
                    eps)
                kept (forward-loss m hidden_buf pred_buf h),
      )
