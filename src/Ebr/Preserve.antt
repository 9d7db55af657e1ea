-- ===== src/Ebr/Preserve.antt =====
-- Every step keeps the invariant, so a held node is never deleted.
use hotpathcplusplus.Base.{
  ℕ, ◌≡◌, refl, sym, subst, ap, inl, inr, ◌≢◌, [], ◌∷◌, Option, none, some, arith,
}
use native.Mathlib.Nat.{le_refl}
use hotpathcplusplus.Ebr.Engine.{Tls, add_thread, unregister_thread, announce, push_node}
use hotpathcplusplus.Ebr.Tasks.{
  idle, retiring, started, scanning, looking, scanned, swapping, sweeping, exchange_epoch,
  sweep_own,
}
use hotpathcplusplus.Ebr.Collect.{In}
use hotpathcplusplus.Ebr.Safety.{
  Reader, outside, loaded, inside, holding, Link, linked, unlinked, retired, World, Step,
  load_epoch, publish, take, leave, unlink, retire_node, retire_other, push, begin_gc, load_head,
  load_active, load_local, end_scan, load_global, swap, sweep_batches, end_gc, announce_other,
  spawn, quit_other, Reach, here, next, Fine, Guarded, Staged, Safe, Inv,
}
use hotpathcplusplus.Ebr.Blocks.{update-all, Inv-intro, write-Inv, Fine-move, unheld, announced-Inv}
use hotpathcplusplus.Ebr.Collectors.{
  goes_on-Inv, look-Covers, active-Covers, global-Covers, global-Waits, active-Waits,
  exchange_epoch-Inv, sweep_own-Inv,
}
use hotpathcplusplus.Ebr.Retiring.{retire_node-Inv, push-Inv}

module _ (a n : ℕ) where
  spawn-Inv : (w : World) → Inv a n w → Inv a n (record w { ebr = (add_thread w.ebr).0 })
  unfolding add_thread
  spawn-Inv w v =
      let epoch = (w.ebr.tcb a).local_epoch in
      Inv-intro a n _ w.task w.reader w.link epoch (inr v.chained) (ground (arith, v.live, v.young))
        (ground (arith, v.young)) (omega (arith, v.young)) v.positive v.staged
        (λ g.
          let (alive, fine) = v.safe g in
          (
            alive,
            update-all (λ b y. Fine a n w.link epoch (w.task b) y.retirement_batches) w.ebr.tcb
                w.ebr.fresh _ fine (tt, (fine w.ebr.fresh).1),
          ))

  announce_other-Inv :
      (w : World) (b epoch : ℕ)
      → b ≢ a
      → Inv a n w
      → Inv a n (record w { ebr = announce w.ebr b epoch })
  unfolding announce
  announce_other-Inv w b epoch other v =
      write-Inv a n w b _ v (λ e. absurd (other e)) (λ g. (v.safe g).1 b)

  quit_other-Inv :
      (w : World) (t : Tls)
      → t.tls_tcb ≢ some a
      → Inv a n w
      → Inv a n (record w { ebr = (unregister_thread w.ebr t).0 })
  unfolding unregister_thread
  quit_other-Inv w t other v = by_tcb t.tls_tcb other
    where
      by_tcb :
          (o : Option ℕ)
          → o ≢ some a
          → Inv a n (record w { ebr = (unregister_thread w.ebr (record t { tls_tcb = o })).0 })
      by_tcb none h = v
      by_tcb (some b) h = write-Inv a n w b _ v (λ e. absurd (h (ap some e))) (λ g. (v.safe g).1 b)

  -- A reader or a writer that moves on without a write to the engine.
  same_engine-Inv :
      (w : World) (r : Reader) (l : Link)
      → Inv a n w
      → Staged a n r (w.ebr.tcb a).local_epoch w.ebr.global_epoch
      → Safe a n w.ebr w.task r l (w.ebr.tcb a).local_epoch
      → Inv a n (record w { reader = r; link = l })
  same_engine-Inv w r l v st safe =
      Inv-intro a n w.ebr w.task r l (w.ebr.tcb a).local_epoch v.chained v.live refl v.young
        v.positive st safe

  -- The unlinked node is in no batch yet, nor on its way to one.
  unlink-Inv : (w : World) → w.link ≡ linked → Inv a n w → Inv a n (record w { link = unlinked })
  unlink-Inv w e v =
      let epoch = (w.ebr.tcb a).local_epoch in
      let (alive, fine) = (subst (λ l. Safe a n w.ebr w.task w.reader l epoch) e v.safe) tt in
      same_engine-Inv w w.reader unlinked v v.staged (λ _. (
        alive,
        λ b.
            Fine-move a n linked unlinked epoch epoch (w.task b) (w.ebr.tcb b).retirement_batches
              (λ k f. f) (fine b),
      ))

  Staged-at :
      (w : World) (r : Reader)
      → w.reader ≡ r
      → Inv a n w
      → Staged a n r (w.ebr.tcb a).local_epoch w.ebr.global_epoch
  Staged-at w r e v =
      subst (λ x. Staged a n x (w.ebr.tcb a).local_epoch w.ebr.global_epoch) e v.staged

  -- Every step keeps the invariant.
  pub Step-Inv : {w u : World} → Step a n w u → Inv a n w → Inv a n u
  Step-Inv {w} (load_epoch e) v =
      same_engine-Inv w (loaded w.ebr.global_epoch) w.link v (v.positive, le_refl _)
        (λ g. v.safe (unheld a n w.link (loaded w.ebr.global_epoch) w.reader (λ k. k) g))
  Step-Inv {w} (publish epoch e) v =
      announced-Inv a n w epoch inside (λ k. k) (Staged-at w (loaded epoch) e v) v
  Step-Inv {w} (take e l) v =
      same_engine-Inv w holding w.link v (Staged-at w inside e v)
        (λ _. v.safe (subst (λ k. Guarded a n k w.reader) (sym l) tt))
  Step-Inv {w} leave v = announced-Inv a n w 0 outside (λ k. k) tt v
  Step-Inv {w} (unlink e) v = unlink-Inv w e v
  Step-Inv {w} (retire_node b i e) v = retire_node-Inv a n w b e v
  Step-Inv {w} (retire_other b m i h) v =
      goes_on-Inv a n w b idle _ i v (λ l epoch q. absurd (h q)) (λ g e o c. tt)
  Step-Inv {w} (push b m k e) v =
      goes_on-Inv a n (record w { ebr = push_node w.ebr b k m }) b (retiring m k) idle e
        (push-Inv a n w b m k e v) (λ l epoch. tt) (λ g e o c. tt)
  Step-Inv {w} (begin_gc b i) v = goes_on-Inv a n w b idle _ i v (λ l epoch. tt) (λ g e o c. tt)
  Step-Inv {w} (load_head b m i) v =
      goes_on-Inv a n w b (started m) _ i v (λ l epoch. tt) (λ g e o c. inr v.chained)
  Step-Inv {w} (load_active b m x rest i) v =
      goes_on-Inv a n w b (scanning m (x ∷ rest)) _ i v (active-Waits a n _ m x rest)
        (λ g e o c. active-Covers a n w m x rest e v.live c)
  Step-Inv {w} (load_local b m x rest i) v =
      goes_on-Inv a n w b (looking m x rest) _ i v (λ l epoch. tt)
        (λ g e.
          look-Covers a n w.link w.reader (w.ebr.tcb a).local_epoch w.ebr.global_epoch
            (w.ebr.tcb x).local_epoch m x rest e g v.staged
            (λ q. ap (λ (y : ℕ). (w.ebr.tcb y).local_epoch) (sym q)))
  Step-Inv {w} (end_scan b m i) v =
      goes_on-Inv a n w b (scanning m []) (scanned m) i v (λ l epoch. tt)
        (λ g e o c. elim c [ inl le ↦ le | inr none_left ↦ absurd none_left ])
  Step-Inv {w} (load_global b m i) v =
      goes_on-Inv a n w b (scanned m) _ i v (global-Waits a n m w.ebr.global_epoch)
        (λ g e o c. global-Covers a n m w.ebr.global_epoch e c)
  Step-Inv {w} (swap b m global i) v =
      goes_on-Inv a n (record w { ebr = exchange_epoch w.ebr global }) b (swapping m global)
        (sweeping m) i (exchange_epoch-Inv a n w global v) (λ l epoch. tt) (λ g e o c. c)
  Step-Inv {w} (sweep_batches b m i) v =
      goes_on-Inv a n (record w { ebr = sweep_own w.ebr b m }) b (sweeping m) idle i
        (sweep_own-Inv a n w b m i v) (λ l epoch. tt) (λ g e o c. tt)
  Step-Inv {w} (end_gc b m i) v =
      goes_on-Inv a n w b (sweeping m) idle i v (λ l epoch. tt) (λ g e o c. tt)
  Step-Inv {w} (announce_other b epoch h) v = announce_other-Inv w b epoch h v
  Step-Inv {w} spawn v = spawn-Inv w v
  Step-Inv {w} (quit_other t h) v = quit_other-Inv w t h v

  pub Reach-Inv : {w u : World} → Inv a n w → Reach a n w u → Inv a n u
  Reach-Inv v here = v
  Reach-Inv v (next r s) = Step-Inv s (Reach-Inv v r)

  -- While the reader holds the reference it took in its critical section, no thread's collection
  -- deletes the node, in whatever order the threads' accesses to the shared state are mixed in
  -- EnterCritical (the load of the epoch and its announcement), Retire (the load of the epoch and the
  -- push) and Gc (each load of the scan, the compare-exchange, the loop over the thread's own
  -- batches). Atomics are sequentially consistent. The run starts in a state with the invariant,
  -- such as one in which the epoch is above 0, the reader's block is active and linked, and the node
  -- is reachable and neither in a batch nor deleted.
  pub held-alive :
      {w u : World} → Inv a n w → Reach a n w u → u.reader ≡ holding → ¬ (In n u.ebr.deleted)
  held-alive {u = u} v r e =
      ((Reach-Inv v r).safe (subst (λ x. Guarded a n u.link x) (sym e) (guarded u.link))).0
    where
      guarded : (l : Link) → Guarded a n l holding
      guarded linked = tt
      guarded unlinked = tt
      guarded retired = tt
