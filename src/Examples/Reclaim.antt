-- ===== src/Examples/Reclaim.antt =====
-- A reader takes a reference while a writer unlinks and retires the node, and two threads collect.
use hotpathcplusplus.Base.{◌+◌, ℕ, ◌≡◌, refl, inl, [], ◌∷◌, some, count, arith}
use hotpathcplusplus.Ebr.Engine.{Ebr, new_tcb, add_thread, announce, gc, push_node}
use hotpathcplusplus.Ebr.Tasks.{
  idle, retiring, started, scanning, looking, scanned, swapping, sweeping, exchange_epoch,
  sweep_own,
}
use hotpathcplusplus.Ebr.Collect.{In}
use hotpathcplusplus.Ebr.Safety.{
  outside, loaded, inside, holding, linked, unlinked, retired, World, turns, load_epoch, publish,
  take, unlink, retire_node, push, begin_gc, load_head, load_active, load_local, end_scan,
  load_global, swap, sweep_batches, end_gc, spawn, Reach, here, next, Inv,
}
use hotpathcplusplus.Ebr.Preserve.{held-alive}
use hotpathcplusplus.Ebr.Drain.{count_batches, gc-gc}

-- one thread, block 0, in the first epoch
abbrev w0 : World
w0 = record {
  ebr = record { global_epoch = 1; tcb = λ a. new_tcb; chain = 0 ∷ []; fresh = 1; deleted = [] };
  task = λ a. idle;
  reader = outside;
  link = linked;
}

w0-Inv : Inv 0 9 w0
unfolding new_tcb
w0-Inv = record {
  chained = inl refl;
  live = refl;
  young = omega arith;
  positive = omega arith;
  staged = tt;
  safe = λ g. ((λ i. absurd i), (λ b. (tt, tt)));
}

abbrev w1 : World
w1 = record w0 { ebr = (add_thread w0.ebr).0 }

abbrev w2 : World
w2 = record w1 { reader = loaded 1 }

abbrev w3 : World
w3 = record w2 { ebr = announce w2.ebr 0 1; reader = inside }

abbrev w4 : World
w4 = record w3 { reader = holding }

abbrev w5 : World
w5 = record w4 { link = unlinked }

abbrev w6 : World
w6 = record (turns w5 1 (retiring 9 1)) { link = retired }

abbrev w7 : World
w7 = turns (record w6 { ebr = push_node w6.ebr 1 1 9 }) 1 idle

w7-Reach : Reach 0 9 w0 w7
unfolding add_thread announce
w7-Reach =
    let entered : Reach 0 9 w0 w3 =
      next (next (next here spawn) (load_epoch refl)) (publish 1 refl) in
    next (next (next (next entered (take refl refl)) (unlink refl)) (retire_node 1 refl refl))
      (push 1 9 1 refl)

-- Gc of thread `b` up to its compare-exchange, in which it finds the epoch 1 everywhere.
abbrev before_swap : ℕ → World → World
before_swap b w =
    let v0 = turns w b (started 1) in
    let v1 = turns v0 b (scanning 1 (1 ∷ 0 ∷ [])) in
    let v2 = turns v1 b (looking 1 1 (0 ∷ [])) in
    let v3 = turns v2 b (scanning 1 (0 ∷ [])) in
    let v4 = turns v3 b (looking 1 0 []) in
    let v5 = turns v4 b (scanning 1 []) in turns (turns v5 b (scanned 1)) b (swapping 1 1)

-- Thread 2, which has no block, is about to exchange the epoch ...
abbrev w8 : World
w8 = before_swap 2 w7

-- ... when thread 1 is, too, which exchanges it and goes on to its batches.
abbrev w9 : World
w9 = before_swap 1 w8

abbrev w10 : World
w10 = turns (record w9 { ebr = exchange_epoch w9.ebr 1 }) 1 (sweeping 1)

abbrev w11 : World
w11 = turns (record w10 { ebr = sweep_own w10.ebr 1 1 }) 1 idle

-- The compare-exchange of thread 2 fails.
abbrev w12 : World
w12 = turns (record w11 { ebr = exchange_epoch w11.ebr 1 }) 2 (sweeping 1)

abbrev w13 : World
w13 = turns w12 2 idle

w8-Reach : Reach 0 9 w0 w8
unfolding add_thread announce push_node new_tcb
w8-Reach =
    let begun = next (next w7-Reach (begin_gc 2 refl)) (load_head 2 1 refl) in
    let first =
      next (next begun (load_active 2 1 1 (0 ∷ []) refl)) (load_local 2 1 1 (0 ∷ []) refl) in
    let second = next (next first (load_active 2 1 0 [] refl)) (load_local 2 1 0 [] refl) in
    next (next second (end_scan 2 1 refl)) (load_global 2 1 refl)

w9-Reach : Reach 0 9 w0 w9
unfolding add_thread announce push_node new_tcb
w9-Reach =
    let begun = next (next w8-Reach (begin_gc 1 refl)) (load_head 1 1 refl) in
    let first =
      next (next begun (load_active 1 1 1 (0 ∷ []) refl)) (load_local 1 1 1 (0 ∷ []) refl) in
    let second = next (next first (load_active 1 1 0 [] refl)) (load_local 1 1 0 [] refl) in
    next (next second (end_scan 1 1 refl)) (load_global 1 1 refl)

w13-Reach : Reach 0 9 w0 w13
w13-Reach =
    let swept = next (next w9-Reach (swap 1 1 1 refl)) (sweep_batches 1 1 refl) in
    next (next swept (swap 2 1 1 refl)) (end_gc 2 1 refl)

held-alive_example : ¬ (In 9 w13.ebr.deleted)
held-alive_example = held-alive 0 9 w0-Inv w13-Reach refl

-- Two collections by block 0, which has retired 9 twice in different epochs, with another node between.
abbrev resting : Ebr
resting = record {
  global_epoch = 4;
  tcb = λ a. record new_tcb {
    retirement_batches =
        record { epoch = 4; nodes = 9 ∷ [] } ∷ record { epoch = 2; nodes = 8 ∷ 9 ∷ [] } ∷ [];
  };
  chain = 0 ∷ [];
  fresh = 1;
  deleted = [];
}

gc-gc_example :
    let f = gc (gc resting (some 0)) (some 0) in
    ((f.tcb 0).retirement_batches ≡ [])
    × (count 9 f.deleted
        ≡ count 9 resting.deleted + count_batches 9 (resting.tcb 0).retirement_batches)
unfolding new_tcb
gc-gc_example = gc-gc resting 0 9 ((λ act. refl), tt) (omega arith, (omega arith, tt))
