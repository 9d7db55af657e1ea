-- ===== src/Ebr/Retiring.antt =====
-- The steps of Retire keep the invariant.
use hotpathcplusplus.Base.{ℕ, ◌≡◌, refl, sym, subst, ap, true, List, update}
use hotpathcplusplus.Ebr.Engine.{Batch, push_node, add_node}
use hotpathcplusplus.Ebr.Tasks.{retiring}
use hotpathcplusplus.Ebr.Collect.{add_node-Batched}
use hotpathcplusplus.Ebr.Safety.{Link, unlinked, retired, World, turns, Old, Fine, Safe, Inv}
use hotpathcplusplus.Ebr.Blocks.{update-all, Inv-intro, weaken-Fine, write-Inv, Fine-move}
use hotpathcplusplus.Ebr.Collectors.{held_le}

module _ (a n : ℕ) where
  -- The epoch that Retire loads for the node is not before the reader's.
  pub retire_node-Inv :
      (w : World) (b : ℕ)
      → w.link ≡ unlinked
      → Inv a n w
      → Inv a n (record (turns w b (retiring n w.ebr.global_epoch)) { link = retired })
  retire_node-Inv w b e v =
      let epoch = (w.ebr.tcb a).local_epoch in
      let (alive, fine) = (subst (λ l. Safe a n w.ebr w.task w.reader l epoch) e v.safe) tt in
      let moved : (c : ℕ) → Fine a n retired epoch (w.task c) (w.ebr.tcb c).retirement_batches =
        λ c.
          Fine-move a n unlinked retired epoch epoch (w.task c) (w.ebr.tcb c).retirement_batches
            (λ k f. absurd f) (fine c) in
      let new = retiring n w.ebr.global_epoch in
      Inv-intro a n w.ebr (update w.task b new) w.reader retired epoch v.chained v.live refl v.young
        v.positive v.staged
        (λ g. (
          alive,
          update-all (λ c t. Fine a n retired epoch t (w.ebr.tcb c).retirement_batches) w.task b new
              moved
              (weaken-Fine a n retired epoch (w.task b) new (w.ebr.tcb b).retirement_batches
                (λ k o c. tt) (λ _. (held_le a n w.reader epoch w.ebr.global_epoch g v.staged).1)
                (moved b)),
        ))

  -- The push of a node, at the epoch that was loaded for it.
  pub push-Inv :
      (w : World) (b m k : ℕ)
      → w.task b ≡ retiring m k
      → Inv a n w
      → Inv a n (record w { ebr = push_node w.ebr b k m })
  unfolding push_node
  push-Inv w b m k e v =
      let epoch = (w.ebr.tcb a).local_epoch in
      write-Inv a n w b _ v
        (λ q. (
          subst (λ (y : ℕ). (w.ebr.tcb y).active ≡ true) (sym q) v.live,
          ap (λ (y : ℕ). (w.ebr.tcb y).local_epoch) q,
        ))
        (λ g.
          subst (λ t. Fine a n w.link epoch t (add_node k m (w.ebr.tcb b).retirement_batches))
            (sym e)
            (pushed w.link epoch (w.ebr.tcb b).retirement_batches (
              subst (λ t. Fine a n w.link epoch t (w.ebr.tcb b).retirement_batches) e
                ((v.safe g).1 b))))
    where
      pushed :
          (l : Link) (epoch : ℕ) (bs : List Batch)
          → Fine a n l epoch (retiring m k) bs
          → Fine a n l epoch (retiring m k) (add_node k m bs)
      pushed l epoch bs (fine, waits) = (
        add_node-Batched (λ x. Old a n l epoch x × Unit) k m n bs (λ q. (waits q, tt)) fine,
        waits,
      )
