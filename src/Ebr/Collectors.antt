-- ===== src/Ebr/Collectors.antt =====
-- The steps of Gc keep the invariant.
use hotpathcplusplus.Base.{
  ℕ, ◌≤◌, ◌<◌, ◌≡◌, refl, subst, ◌⊎◌, inl, inr, Bool, true, false, List, ◌∷◌, arith, Bool-cases,
  ◌==◌,
}
use hotpathcplusplus.Ebr.Engine.{Batch, sweep}
use hotpathcplusplus.Ebr.Tasks.{
  Task, scanning, looking, sweeping, after_active, lower, after_global, exchange_epoch, sweep_own,
}
use hotpathcplusplus.Ebr.Collect.{In, In-append, Batched, Batched-weaken, sweep-gone, sweep-kept}
use hotpathcplusplus.Ebr.Safety.{
  Reader, outside, loaded, inside, holding, Link, linked, unlinked, retired, World, turns, Old,
  Covers, Waits, Fine, Guarded, Staged, Inv,
}
use hotpathcplusplus.Ebr.Blocks.{update-all, Inv-intro, Staged-le, turns-Inv, weaken-Fine}

module _ (a n : ℕ) where
  -- A thread that holds no node for Retire goes on from a known task.
  pub goes_on-Inv :
      (w : World) (b : ℕ) (t u : Task)
      → w.task b ≡ t
      → Inv a n w
      → ((l : Link) (epoch : ℕ) → Waits a n l epoch u)
      → (Guarded a n w.link w.reader
          → (e : ℕ) → Old a n w.link (w.ebr.tcb a).local_epoch e
          → Covers a n t e
          → Covers a n u e)
      → Inv a n (turns w b u)
  goes_on-Inv w b t u same v waits f = turns-Inv a n w b u v (λ g fine.
      weaken-Fine a n w.link (w.ebr.tcb a).local_epoch t u (w.ebr.tcb b).retirement_batches (f g)
        (waits w.link (w.ebr.tcb a).local_epoch)
        (subst (λ x. Fine a n w.link (w.ebr.tcb a).local_epoch x (w.ebr.tcb b).retirement_batches)
          same fine))

  pub held_le :
      (r : Reader) (epoch global : ℕ)
      → Guarded a n retired r
      → Staged a n r epoch global
      → (0 < epoch) × (epoch ≤ global)
  held_le outside epoch global g s = absurd g
  held_le (loaded e) epoch global g s = absurd g
  held_le inside epoch global g s = absurd g
  held_le holding epoch global g s = s

  -- A bound that spares the reader's epoch after the look at its block.
  pub look-Covers :
      (l : Link) (r : Reader) (epoch global local m x : ℕ) (rest : List ℕ) (e : ℕ)
      → Guarded a n l r
      → Staged a n r epoch global
      → (a ≡ x → local ≡ epoch)
      → Old a n l epoch e
      → Covers a n (looking m x rest) e
      → Covers a n (scanning (lower local m) rest) e
  look-Covers l r epoch global local m x rest e g s own o (inl le) = inl (ground arith)
  look-Covers l r epoch global local m x rest e g s own o (inr (inr later)) = inr later
  look-Covers linked r epoch global local m x rest e g s own o (inr (inl q)) = absurd o
  look-Covers unlinked r epoch global local m x rest e g s own o (inr (inl q)) = absurd o
  look-Covers retired r epoch global local m x rest e g s own o (inr (inl q)) =
      let held = held_le r epoch global g s in inl (ground (arith, held, own q, o))

  pub active-Covers :
      (w : World) (m x : ℕ) (rest : List ℕ) (e : ℕ)
      → (w.ebr.tcb a).active ≡ true
      → Covers a n (scanning m (x ∷ rest)) e
      → Covers a n (after_active (w.ebr.tcb x).active m x rest) e
  active-Covers w m x rest e live c = elim (Bool-cases (w.ebr.tcb x).active) [
    | inl on ↦ rw on c
    | inr off ↦ rw off (passed off c)
  ]
    where
      passed :
          (w.ebr.tcb x).active ≡ false → Covers a n (scanning m (x ∷ rest)) e → (m ≤ e) ⊎ In a rest
      passed off (inl le) = inl le
      passed off (inr (inr later)) = inr later
      passed off (inr (inl q)) =
          let on = subst (λ (y : ℕ). (w.ebr.tcb y).active ≡ true) q live in
          absurd (ground (arith, on, off))

  pub global-Covers : (m global e : ℕ) → m ≤ e → Covers a n (after_global m global) e
  global-Covers m global e le = elim (Bool-cases (m == global)) [
    | inl same ↦ rw same le
    | inr other ↦ rw other le
  ]

  pub global-Waits :
      (m global : ℕ) (l : Link) (epoch : ℕ) → Waits a n l epoch (after_global m global)
  global-Waits m global l epoch = elim (Bool-cases (m == global)) [
    | inl same ↦ rw same tt
    | inr other ↦ rw other tt
  ]

  pub active-Waits :
      (on : Bool) (m x : ℕ) (rest : List ℕ) (l : Link) (epoch : ℕ)
      → Waits a n l epoch (after_active on m x rest)
  active-Waits true m x rest l epoch = tt
  active-Waits false m x rest l epoch = tt

  -- The compare-exchange never takes the epoch back.
  pub exchange_epoch-Inv :
      (w : World) (global : ℕ)
      → Inv a n w
      → Inv a n (record w { ebr = exchange_epoch w.ebr global })
  unfolding exchange_epoch
  exchange_epoch-Inv w global v =
      Inv-intro a n _ w.task w.reader w.link (w.ebr.tcb a).local_epoch v.chained v.live refl v.young
        (ground (arith, v.positive))
        (Staged-le a n w.reader _ w.ebr.global_epoch _ (ground arith) v.staged) v.safe

  -- The bound spares every batch that may hold the node.
  pub sweep_own-Inv :
      (w : World) (b m : ℕ)
      → w.task b ≡ sweeping m
      → Inv a n w
      → Inv a n (record w { ebr = sweep_own w.ebr b m })
  unfolding sweep_own
  sweep_own-Inv w b m e v =
      let epoch = (w.ebr.tcb a).local_epoch in
      let bs = (w.ebr.tcb b).retirement_batches in
      Inv-intro a n (sweep_own w.ebr b m) w.task w.reader w.link epoch v.chained
        (ground (arith, v.live)) (ground arith) v.young v.positive v.staged
        (λ g.
          let (alive, fine) = v.safe g in
          let (own, waits) = fine b in
          (
            λ i. elim (In-append n w.ebr.deleted (sweep m bs).0 i) [
              | inl before ↦ alive before
              | inr now ↦
                  sweep-gone m n bs now
                    (spared w.link epoch bs (subst (λ t. Fine a n w.link epoch t bs) e (fine b)))
            ],
            update-all (λ c y. Fine a n w.link epoch (w.task c) y.retirement_batches) w.ebr.tcb b _
                fine (sweep-kept _ m n bs own, waits),
          ))
    where
      spared :
          (l : Link) (epoch : ℕ) (bs : List Batch)
          → Fine a n l epoch (sweeping m) bs
          → Batched (λ k. m ≤ k) n bs
      spared l epoch bs f =
          Batched-weaken (λ k. Old a n l epoch k × (m ≤ k)) (λ k. m ≤ k) n bs (λ k h. h.1) f.0
