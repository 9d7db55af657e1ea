-- ===== src/Examples/Litmus.antt =====
-- The theorems on the store buffer challenge at short runs.
use hotpathcplusplus.Base.{◌*◌, ◌≤◌, ◌≡◌, ◌⊎◌, refl, true, false, arith}
use hotpathcplusplus.StoreBuffers.Litmus
use hotpathcplusplus.StoreBuffers.Litmus.{Trial, Reach, Var, var_x, var_y}
use hotpathcplusplus.StoreBuffers.Order.{reordered_count_seq_cst, reordered_count_relaxed}
use hotpathcplusplus.StoreBuffers.Handoff
use hotpathcplusplus.StoreBuffers.Handoff.{Handoff, expected}
use hotpathcplusplus.StoreBuffers.Completion.{Run, handoff_completes}

-- a trial with sequentially consistent stores, the second thread first
one_trial : (m : Trial) × Reach true 1 m × (m.trials ≡ 1)
unfolding Litmus.count_trial
one_trial =
    let reset =
      Reach.step (Reach.step Reach.start (Litmus.reset_x refl (omega arith)))
        (Litmus.reset_y refl) in
    let clear =
      Reach.step (Reach.step reset (Litmus.flush1 var_x 0 _ refl)) (Litmus.flush1 var_y 0 _ refl) in
    let released = Reach.step clear (Litmus.first_barrier refl refl refl refl) in
    let second =
      Reach.step (Reach.step released (Litmus.store_y_seq_cst refl refl refl))
        (Litmus.load_x refl) in
    let first =
      Reach.step (Reach.step second (Litmus.store_x_seq_cst refl refl refl)) (Litmus.load_y refl) in
    (
      _,
      Reach.step (Reach.step first (Litmus.second_barrier refl refl refl refl)) (Litmus.check refl),
      refl,
    )

reordered_count_seq_cst_example : one_trial.0.reordered_count ≡ 0
reordered_count_seq_cst_example = reordered_count_seq_cst 1 one_trial.0 one_trial.1

reordered_count_relaxed_example :
    (m : Trial) × Reach false 2 m × (m.trials ≡ 2) × (m.reordered_count ≡ 2)
reordered_count_relaxed_example = reordered_count_relaxed 2

-- One message through a ring of one slot, with release stores; the consumer has just loaded it.
one_message : (m : Handoff) × Run 1 1 true 9 m
one_message =
    let filled =
      Run.next
        (Run.next (Run.next Run.begin (Handoff.has_room refl (omega arith) (omega arith)))
          (Handoff.fill_a refl))
        (Handoff.fill_b refl) in
    let sent = Run.next filled (Handoff.publish_release refl refl) in
    let drained =
      Run.next
        (Run.next (Run.next sent (Handoff.drain_store _ _ refl)) (Handoff.drain_store _ _ refl))
        (Handoff.drain_store _ _ refl) in
    (
      _,
      Run.next (Run.next drained (Handoff.has_message refl (omega arith) (omega arith)))
          (Handoff.read_a refl),
    )

handoff_completes_example :
    (9 ≤ 12 * 1)
    × (((one_message.0.receiving ≡ 2) × (one_message.0.checksum ≡ expected 1))
        ⊎ ((t : Handoff) × Handoff.Step 1 1 true one_message.0 t))
handoff_completes_example =
    handoff_completes 1 1 true 9 one_message.0 (omega arith) (omega arith) one_message.1
