-- ===== src/Learning/Backprop.antt =====
-- The gradients that BackwardReverseMode of TwoLayerMlp leaves, cell by cell.
use hotpathcplusplus.Base.{
  ℕ, ◌+◌, ◌*◌, ◌<◌, ◌≡◌, ◌≢◌, refl, sym, ap, ap₂, subst, ◌∙◌, List, get_or, set, length, length-set,
  get_or-set, for_from, for_from-congr, Maps, range_once, if◌then◌else◌, ==-self, if_true,
  Bool-cases, inl, inr, arith,
}
use native.Mathlib.Nat.{zero-add}
use hotpathcplusplus.Base.Cells.{IsSized, set-here, set-away, stores-cell, row-here, row-away}
use hotpathcplusplus.Learning.Gemm.{add_product}
use hotpathcplusplus.Learning.Mlp.{
  Float, TwoLayerMlp, relu, forward_hidden, forward_output, forward, backward_output,
  backward_hidden, backward,
}

module _ {ℓ} {D : Type ℓ} (fl : Float D) (m : TwoLayerMlp D) (x target : List D) where
  -- What the network computes, without buffers.
  unfoldable pub hidden_unit : ℕ → D
  hidden_unit h = relu fl (
      for_from m.in_dim 1 0
        (λ i sum.
          fl.plus sum
            (fl.times (get_or m.w1 (h * m.in_dim + i) fl.zero_value) (get_or x i fl.zero_value)))
        fl.zero_value)

  unfoldable pub output : ℕ → D
  output o =
      for_from m.hidden_dim 1 0
        (λ h sum.
          fl.plus sum (fl.times (get_or m.w2 (o * m.hidden_dim + h) fl.zero_value) (hidden_unit h)))
        fl.zero_value

  -- What an output contributes to the gradients: its error, divided by the number of outputs.
  unfoldable pub delta : ℕ → D
  delta o =
      fl.times (fl.minus (output o) (get_or target o fl.zero_value))
        (fl.divide fl.one (fl.of_int m.out_dim))

  -- The chain rule through the outputs.
  unfoldable pub upstream : ℕ → D
  upstream h =
      for_from m.out_dim 1 0
        (λ o sum.
          fl.plus sum (fl.times (get_or m.w2 (o * m.hidden_dim + h) fl.zero_value) (delta o)))
        fl.zero_value

  module _ (hidden_buf : List D) (h_hidden : length hidden_buf ≡ m.hidden_dim) where
    abbrev pub hidden : List D
    hidden = forward_hidden fl m x target hidden_buf

    hidden-cell : (h : ℕ) → h < m.hidden_dim → get_or hidden h fl.zero_value ≡ hidden_unit h
    unfolding forward_hidden hidden_unit add_product
    hidden-cell h lt =
        stores-cell fl.zero_value m.hidden_dim
          (λ (k : ℕ). relu fl (
            for_from m.in_dim 1 0
              (add_product fl.plus fl.times fl.zero_value m.w1 x (k * m.in_dim) 0) fl.zero_value))
          hidden_buf h lt h_hidden
        ∙ ap (relu fl) (
            for_from-congr m.in_dim 0
              (add_product fl.plus fl.times fl.zero_value m.w1 x (h * m.in_dim) 0)
              (λ i sum. fl.plus sum (
                fl.times (get_or m.w1 (h * m.in_dim + i) fl.zero_value) (get_or x i fl.zero_value)))
              fl.zero_value (λ k u le lt'. rw (zero-add k) refl))

    -- the sum of an output, over the buffer of hidden units
    pub buffer_sum-output :
        (o : ℕ)
        → for_from m.hidden_dim 1 0
            (add_product fl.plus fl.times fl.zero_value m.w2 hidden (o * m.hidden_dim) 0)
            fl.zero_value
          ≡ output o
    unfolding output add_product
    buffer_sum-output o =
        for_from-congr m.hidden_dim 0
          (add_product fl.plus fl.times fl.zero_value m.w2 hidden (o * m.hidden_dim) 0)
          (λ h sum.
            fl.plus sum
              (fl.times (get_or m.w2 (o * m.hidden_dim + h) fl.zero_value) (hidden_unit h)))
          fl.zero_value (λ k u le lt. rw (zero-add k) (rw (hidden-cell k (omega arith)) refl))

    module _ (pred_buf : List D) (h_pred : length pred_buf ≡ m.out_dim) where
      abbrev pred : List D
      pred = (forward fl m x target hidden_buf pred_buf).2

      pred-cell : (o : ℕ) → o < m.out_dim → get_or pred o fl.zero_value ≡ output o
      unfolding forward forward_output
      pred-cell o lt =
          (range_once (λ (s : List D × D). IsSized fl.zero_value m.out_dim o s.0)
            (λ (s : List D × D). get_or s.0 o fl.zero_value) m.out_dim 0
            (forward_output fl m x target hidden) (λ v. output o) o (omega arith) (omega arith)
            (λ s v.
              subst
                (λ (value : D).
                  IsSized fl.zero_value m.out_dim o (set s.0 o value)
                  × (get_or (set s.0 o value) o fl.zero_value ≡ output o))
                (sym (buffer_sum-output o))
                (set-here fl.zero_value m.out_dim o o (λ v. output o) refl lt s.0 v))
            (λ k le lt' w s v.
              set-away fl.zero_value m.out_dim o k
                (λ out.
                  for_from m.hidden_dim 1 0
                    (add_product fl.plus fl.times fl.zero_value m.w2 hidden (k * m.hidden_dim) 0)
                    fl.zero_value)
                w (omega arith) s.0 v)
            (pred_buf, fl.zero_value) (tt, h_pred)).1

      -- One round of the loop over outputs.
      abbrev output_round : ℕ → List D × List D → List D × List D
      output_round = backward_output fl m x target hidden pred

      -- Its store into `delta_out_buf`.
      error_at : ℕ → D
      error_at o =
          fl.times (fl.minus (get_or pred o fl.zero_value) (get_or target o fl.zero_value))
            (fl.divide fl.one (fl.of_int m.out_dim))

      error_at-delta : (o : ℕ) → o < m.out_dim → error_at o ≡ delta o
      unfolding delta error_at
      error_at-delta o lt =
          ap
            (λ (v : D).
              fl.times (fl.minus v (get_or target o fl.zero_value))
                (fl.divide fl.one (fl.of_int m.out_dim)))
            (pred-cell o lt)

      module _ (h_grad : length m.grad_w2 ≡ m.out_dim * m.hidden_dim) (delta_out_buf : List D)
          (h_delta : length delta_out_buf ≡ m.out_dim) where
        abbrev after_outputs : List D × List D
        after_outputs = for_from m.out_dim 1 0 output_round (delta_out_buf, m.grad_w2)

        delta-cell : (o : ℕ) → o < m.out_dim → get_or after_outputs.0 o fl.zero_value ≡ delta o
        unfolding backward_output error_at
        delta-cell o lt =
            (range_once (λ (s : List D × List D). IsSized fl.zero_value m.out_dim o s.0)
              (λ (s : List D × List D). get_or s.0 o fl.zero_value) m.out_dim 0 output_round
              (λ v. error_at o) o (omega arith) (omega arith)
              (λ s v. set-here fl.zero_value m.out_dim o o (λ v. error_at o) refl lt s.0 v)
              (λ k le lt' w s v.
                set-away fl.zero_value m.out_dim o k (λ out. error_at k) w (omega arith) s.0 v)
              (delta_out_buf, m.grad_w2) (tt, h_delta)).1
            ∙ error_at-delta o lt

        module _ (o h : ℕ) (lt : o < m.out_dim) (lt_h : h < m.hidden_dim) where
          abbrev place : ℕ
          place = o * m.hidden_dim + h

          abbrev Sized : List D × List D → Type ℓ
          Sized s =
              (length s.0 ≡ m.out_dim) × IsSized fl.zero_value (m.out_dim * m.hidden_dim) place s.1

          round-here :
              Maps Sized
                (λ (s : List D × List D). get_or s.1 place fl.zero_value)
                (λ v. fl.times (delta o) (hidden_unit h))
                (output_round o)
          unfolding backward_output error_at
          round-here s (sized, v) =
              let (v', e) =
                row-here fl.zero_value m.out_dim m.hidden_dim o h lt lt_h
                  (λ (c : ℕ).
                    fl.times (get_or (set s.0 o (error_at o)) o fl.zero_value)
                      (get_or hidden c fl.zero_value))
                  s.1 v in
              (
                (length-set s.0 o (error_at o) ∙ sized, v'),
                e
                    ∙ ap₂ fl.times
                        (get_or-set s.0 o o (error_at o) fl.zero_value (omega (arith, sized))
                          ∙ if_true (error_at o) (get_or s.0 o fl.zero_value) (==-self o)
                          ∙ error_at-delta o lt)
                        (hidden-cell h lt_h),
              )

          round-away :
              (k : ℕ)
              → k < m.out_dim
              → k ≢ o
              → Maps Sized
                  (λ (s : List D × List D). get_or s.1 place fl.zero_value)
                  (λ v. v)
                  (output_round k)
          unfolding backward_output error_at
          round-away k lt' w s (sized, v) =
              let (v', e) =
                row-away fl.zero_value m.out_dim m.hidden_dim o h lt lt_h k
                  (λ (c : ℕ).
                    fl.times (get_or (set s.0 k (error_at k)) k fl.zero_value)
                      (get_or hidden c fl.zero_value))
                  lt' w s.1 v in
              ((length-set s.0 k (error_at k) ∙ sized, v'), e)

          grad_w2-cell :
              get_or after_outputs.1 place fl.zero_value ≡ fl.times (delta o) (hidden_unit h)
          grad_w2-cell =
              (range_once Sized (λ (s : List D × List D). get_or s.1 place fl.zero_value) m.out_dim
                0 output_round (λ v. fl.times (delta o) (hidden_unit h)) o (omega arith)
                (omega arith) round-here (λ k le lt' w. round-away k (omega arith) w)
                (delta_out_buf, m.grad_w2) (h_delta, (tt, h_grad))).1

        -- The loop over hidden units, on the errors that the outputs left.
        abbrev hidden_round : ℕ → List D × List D → List D × List D
        hidden_round = backward_hidden fl m x target hidden after_outputs.0

        buffer_sum : ℕ → D
        buffer_sum h =
            for_from m.out_dim 1 0
              (λ o sum. fl.plus sum (
                fl.times (get_or m.w2 (o * m.hidden_dim + h) fl.zero_value)
                  (get_or after_outputs.0 o fl.zero_value)))
              fl.zero_value

        buffer_sum-upstream : (h : ℕ) → buffer_sum h ≡ upstream h
        unfolding buffer_sum upstream
        buffer_sum-upstream h =
            for_from-congr m.out_dim 0
              (λ o sum. fl.plus sum (
                fl.times (get_or m.w2 (o * m.hidden_dim + h) fl.zero_value)
                  (get_or after_outputs.0 o fl.zero_value)))
              (λ o sum.
                fl.plus sum (fl.times (get_or m.w2 (o * m.hidden_dim + h) fl.zero_value) (delta o)))
              fl.zero_value
              (λ k u le lt.
                ap
                  (λ (v : D).
                    fl.plus u (fl.times (get_or m.w2 (k * m.hidden_dim + h) fl.zero_value) v))
                  (delta-cell k (omega arith)))

        module _ (h_grad1 : length m.grad_w1 ≡ m.hidden_dim * m.in_dim) (h i : ℕ)
            (lt : h < m.hidden_dim) (lt_i : i < m.in_dim) where
          abbrev place1 : ℕ
          place1 = h * m.in_dim + i

          abbrev Sized1 : List D × List D → Type ℓ
          Sized1 s = IsSized fl.zero_value (m.hidden_dim * m.in_dim) place1 s.1

          abbrev at1 : List D × List D → D
          at1 s = get_or s.1 place1 fl.zero_value

          abbrev chain : D → D
          chain v =
              if fl.is_not_positive (hidden_unit h)
              then v
              else fl.times (upstream h) (get_or x i fl.zero_value)

          unit-here : Maps Sized1 at1 chain (hidden_round h)
          unfolding backward_hidden buffer_sum
          unit-here s v = elim (Bool-cases (fl.is_not_positive (get_or hidden h fl.zero_value))) [
            | inl e ↦ rw (e, ap fl.is_not_positive (sym (hidden-cell h lt)) ∙ e) (v, refl)
            | inr e ↦
                rw (e, ap fl.is_not_positive (sym (hidden-cell h lt)) ∙ e)
                  (let (v', q) =
                      row-here fl.zero_value m.hidden_dim m.in_dim h i lt lt_i
                        (λ (c : ℕ). fl.times (buffer_sum h) (get_or x c fl.zero_value)) s.1 v in
                    (
                      v',
                      q
                          ∙ ap (λ (u : D). fl.times u (get_or x i fl.zero_value))
                              (buffer_sum-upstream h),
                    ))
          ]

          unit-away : (k : ℕ) → k < m.hidden_dim → k ≢ h → Maps Sized1 at1 (λ v. v) (hidden_round k)
          unfolding backward_hidden buffer_sum
          unit-away k lt' w s v =
              elim (Bool-cases (fl.is_not_positive (get_or hidden k fl.zero_value))) [
                | inl e ↦ rw (e) (v, refl)
                | inr e ↦ rw (e) (
                    row-away fl.zero_value m.hidden_dim m.in_dim h i lt lt_i k
                      (λ (c : ℕ). fl.times (buffer_sum k) (get_or x c fl.zero_value)) lt' w s.1 v)
              ]

          grad_w1-cell :
              (delta_hid_buf : List D)
              → at1 (for_from m.hidden_dim 1 0 hidden_round (delta_hid_buf, m.grad_w1))
                ≡ chain (get_or m.grad_w1 place1 fl.zero_value)
          grad_w1-cell delta_hid_buf =
              (range_once Sized1 at1 m.hidden_dim 0 hidden_round chain h (omega arith) (omega arith)
                unit-here (λ k le lt' w. unit-away k (omega arith) w) (delta_hid_buf, m.grad_w1)
                (tt, h_grad1)).1

          -- One sweep of BackwardReverseMode, whatever the scratch buffers held, with buffers and
          -- gradients of the right lengths. Each cell of `grad_w2` is the error of its output, over
          -- the number of outputs, times its hidden unit. Each cell of `grad_w1` is the errors
          -- carried back through `w2` times its input where the hidden unit is above zero, and
          -- where it is not, what the cell held before the sweep.
          pub backward_gradients :
              (delta_hid_buf : List D) (o : ℕ)
              → o < m.out_dim
              → (get_or
                    (backward fl m x target hidden_buf pred_buf delta_out_buf delta_hid_buf).grad_w2
                    (o * m.hidden_dim + h)
                    fl.zero_value
                  ≡ fl.times (delta o) (hidden_unit h))
                × (get_or
                      (backward fl m x target hidden_buf pred_buf delta_out_buf
                        delta_hid_buf).grad_w1
                      (h * m.in_dim + i)
                      fl.zero_value
                    ≡ (if fl.is_not_positive (hidden_unit h)
                        then get_or m.grad_w1 (h * m.in_dim + i) fl.zero_value
                        else fl.times (upstream h) (get_or x i fl.zero_value)))
          unfolding backward forward
          backward_gradients delta_hid_buf o lt_o =
              (grad_w2-cell o h lt_o lt, grad_w1-cell delta_hid_buf)
