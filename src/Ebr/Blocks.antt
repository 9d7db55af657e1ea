-- ===== src/Ebr/Blocks.antt =====
-- What a change of one thread's task, of one block or of the reader's epoch does to the invariant.
use hotpathcplusplus.Base.{
  ℕ, ◌≤◌, ◌<◌, ◌≡◌, refl, sym, subst, inl, inr, true, List, update, ◌==◌, arith, Bool-cases, ==_iff,
}
use hotpathcplusplus.Ebr.Engine.{Batch, ThreadControlBlock, Ebr, announce}
use hotpathcplusplus.Ebr.Tasks.{
  Task, idle, retiring, started, scanning, looking, scanned, swapping, sweeping,
}
use hotpathcplusplus.Ebr.Collect.{In, Batched-weaken}
use hotpathcplusplus.Ebr.Safety.{
  Reader, outside, loaded, inside, holding, Link, linked, unlinked, retired, World, turns, Old,
  Covers, Waits, Fine, Guarded, Staged, Safe, Inv,
}

-- A change of one cell keeps what holds of every cell.
pub update-all {ℓ κ} :
    {A : Type ℓ} (P : ℕ → A → Type κ) (f : ℕ → A) (c : ℕ) (x : A)
    → ((b : ℕ) → P b (f b))
    → P c x
    → (b : ℕ) → P b (update f c x b)
update-all P f c x all new b = elim (Bool-cases (c == b)) [
  | inl same ↦ rw same (subst (λ y. P y x) ((==_iff c b).0 same) new)
  | inr other ↦ rw other (all b)
]

module _ (a n : ℕ) where
  pub Inv-intro :
      (e : Ebr) (task : ℕ → Task) (r : Reader) (l : Link) (epoch : ℕ)
      → In a e.chain
      → (e.tcb a).active ≡ true
      → (e.tcb a).local_epoch ≡ epoch
      → a < e.fresh
      → 0 < e.global_epoch
      → Staged a n r epoch e.global_epoch
      → Safe a n e task r l epoch
      → Inv a n (record { ebr = e; task = task; reader = r; link = l })
  Inv-intro e task r l epoch chained live same young positive staged safe = record {
    chained = chained;
    live = live;
    young = young;
    positive = positive;
    staged = subst (λ x. Staged a n r x e.global_epoch) (sym same) staged;
    safe = subst (λ x. Safe a n e task r l x) (sym same) safe;
  }

  pub Staged-le :
      (r : Reader) (epoch global global' : ℕ)
      → global ≤ global'
      → Staged a n r epoch global
      → Staged a n r epoch global'
  Staged-le outside epoch global global' h s = tt
  Staged-le (loaded e) epoch global global' h s = omega arith
  Staged-le inside epoch global global' h s = omega arith
  Staged-le holding epoch global global' h s = omega arith

  -- A thread goes on to a task with which its batches are still fine.
  pub turns-Inv :
      (w : World) (b : ℕ) (t : Task)
      → Inv a n w
      → (Guarded a n w.link w.reader
          → Fine a n w.link (w.ebr.tcb a).local_epoch (w.task b) (w.ebr.tcb b).retirement_batches
          → Fine a n w.link (w.ebr.tcb a).local_epoch t (w.ebr.tcb b).retirement_batches)
      → Inv a n (turns w b t)
  turns-Inv w b t v new =
      let epoch = (w.ebr.tcb a).local_epoch in
      Inv-intro w.ebr (update w.task b t) w.reader w.link epoch v.chained v.live refl v.young
        v.positive v.staged
        (λ g.
          let (alive, fine) = v.safe g in
          (
            alive,
            update-all (λ c u. Fine a n w.link epoch u (w.ebr.tcb c).retirement_batches) w.task b t
                fine (new g (fine b)),
          ))

  -- the same for a task in which the thread holds no node
  pub weaken-Fine :
      (l : Link) (epoch : ℕ) (t u : Task) (bs : List Batch)
      → ((e : ℕ) → Old a n l epoch e → Covers a n t e → Covers a n u e)
      → Waits a n l epoch u
      → Fine a n l epoch t bs
      → Fine a n l epoch u bs
  weaken-Fine l epoch t u bs f waits (fine, _) = (
    Batched-weaken (λ e. Old a n l epoch e × Covers a n t e)
        (λ e. Old a n l epoch e × Covers a n u e) n bs (λ e h. (h.0, f e h.0 h.1)) fine,
    waits,
  )

  -- A write to the block of another thread, or to the batches of any.
  pub write-Inv :
      (w : World) (c : ℕ) (x : ThreadControlBlock)
      → Inv a n w
      → (c ≡ a → (x.active ≡ true) × (x.local_epoch ≡ (w.ebr.tcb a).local_epoch))
      → (Guarded a n w.link w.reader
          → Fine a n w.link (w.ebr.tcb a).local_epoch (w.task c) x.retirement_batches)
      → Inv a n (record w { ebr = record w.ebr { tcb = update w.ebr.tcb c x } })
  write-Inv w c x v own new =
      let epoch = (w.ebr.tcb a).local_epoch in
      Inv-intro _ w.task w.reader w.link epoch v.chained (ground (arith, v.live, own))
        (ground (arith, own)) v.young v.positive v.staged
        (λ g. (
          (v.safe g).0,
          update-all (λ b y. Fine a n w.link epoch (w.task b) y.retirement_batches) w.ebr.tcb c x
              (v.safe g).1 (new g),
        ))

  -- A thread that goes from one link of the node or one epoch of the reader to another.
  pub Fine-move :
      (l l' : Link) (x y : ℕ) (t : Task) (bs : List Batch)
      → ((e : ℕ) → Old a n l x e → Old a n l' y e)
      → Fine a n l x t bs
      → Fine a n l' y t bs
  Fine-move l l' x y t bs f (fine, waits) = (
    Batched-weaken (λ e. Old a n l x e × Covers a n t e) (λ e. Old a n l' y e × Covers a n t e) n bs
        (λ e h. (f e h.0, h.1)) fine,
    move t waits,
  )
    where
      move : (t : Task) → Waits a n l x t → Waits a n l' y t
      move idle w = tt
      move (retiring z k) w = λ e. f k (w e)
      move (started m) w = tt
      move (scanning m rest) w = tt
      move (looking m z rest) w = tt
      move (scanned m) w = tt
      move (swapping m g) w = tt
      move (sweeping m) w = tt

  -- Before the node is retired it is guarded whatever the reader does.
  pub unheld :
      (l : Link) (r r' : Reader) → (Guarded a n retired r → ⊥) → Guarded a n l r → Guarded a n l r'
  unheld linked r r' h g = tt
  unheld unlinked r r' h g = tt
  unheld retired r r' h g = absurd (h g)

  Old-move : (l : Link) (x y e : ℕ) → (l ≡ retired → ⊥) → Old a n l x e → Old a n l y e
  Old-move linked x y e fresh o = absurd o
  Old-move unlinked x y e fresh o = absurd o
  Old-move retired x y e fresh o = absurd (fresh refl)

  -- The reader announces an epoch, and where it is then holds no reference.
  pub announced-Inv :
      (w : World) (epoch : ℕ) (r : Reader)
      → (Guarded a n retired r → ⊥)
      → Staged a n r epoch w.ebr.global_epoch
      → Inv a n w
      → Inv a n (record w { ebr = announce w.ebr a epoch; reader = r })
  unfolding announce
  announced-Inv w epoch r h st v =
      let before = (w.ebr.tcb a).local_epoch in
      Inv-intro (announce w.ebr a epoch) w.task r w.link epoch v.chained (ground (arith, v.live))
        (ground arith) v.young v.positive st
        (λ g.
          let (alive, fine) = v.safe (unheld w.link r w.reader h g) in
          let moved : (b : ℕ) → Fine a n w.link epoch (w.task b) (w.ebr.tcb b).retirement_batches =
            λ b.
              Fine-move w.link w.link before epoch (w.task b) (w.ebr.tcb b).retirement_batches
                (λ e. Old-move w.link before epoch e (λ q. h (subst (λ l. Guarded a n l r) q g)))
                (fine b) in
          (
            alive,
            update-all (λ b y. Fine a n w.link epoch (w.task b) y.retirement_batches) w.ebr.tcb a _
                moved (moved a),
          ))
