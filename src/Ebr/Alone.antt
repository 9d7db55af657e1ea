-- ===== src/Ebr/Alone.antt =====
-- A thread in Gc whose steps nobody comes between does what the whole of Gc does.
use hotpathcplusplus.Base.{
  ℕ, ◌≡◌, refl, ap, ◌∙◌, inl, inr, List, [], ◌∷◌, some, arith, ◌==◌, Bool-cases, ==-self,
  if◌then◌else◌, suc,
}
use hotpathcplusplus.Ebr.Engine.{Ebr, scan_step, min_epoch, gc}
use hotpathcplusplus.Ebr.Tasks.{
  Task, idle, started, scanning, looking, scanned, swapping, sweeping, after_active, lower,
  after_global, exchange_epoch, sweep_own,
}
use hotpathcplusplus.Ebr.Safety.{
  World, turns, begin_gc, load_head, load_active, load_local, end_scan, load_global, swap,
  sweep_batches, Reach, here, next,
}

at-turns : (w : World) (b : ℕ) (t : Task) → (turns w b t).task b ≡ t
at-turns w b t = ground (arith, ==-self b)

module _ (a n : ℕ) where
  Reach-trans : {s t u : World} → Reach a n s t → Reach a n t u → Reach a n s u
  Reach-trans r here = r
  Reach-trans r (next q st) = next (Reach-trans r q) st

  -- The world is the one before with another task of thread `b`.
  abbrev Turned : World → ℕ → Ebr → Task → Type 0
  Turned w b e t = (u : World) × Reach a n w u × (u.ebr ≡ e) × (u.task b ≡ t)

  look_alone :
      (w : World) (b m x : ℕ) (rest : List ℕ)
      → w.task b ≡ scanning m (x ∷ rest)
      → Turned w b w.ebr (scanning (scan_step (w.ebr.tcb x) m) rest)
  look_alone w b m x rest e = elim (Bool-cases (w.ebr.tcb x).active) [
    | inl on ↦
        let v = turns w b (after_active (w.ebr.tcb x).active m x rest) in
        let first : Reach a n w v = next here (load_active b m x rest e) in
        let at : v.task b ≡ looking m x rest = at-turns w b _ ∙ rw on refl in
        (
          turns v b (scanning (lower (w.ebr.tcb x).local_epoch m) rest),
          next first (load_local b m x rest at),
          refl,
          at-turns v b _ ∙ rw on refl,
        )
    | inr off ↦ (
      turns w b (after_active (w.ebr.tcb x).active m x rest),
      next here (load_active b m x rest e),
      refl,
      at-turns w b _ ∙ rw off refl,
    )
  ]

  scan_alone :
      (rest : List ℕ) (w : World) (b m : ℕ)
      → w.task b ≡ scanning m rest
      → Turned w b w.ebr (scanned (min_epoch w.ebr.tcb rest m))
  unfolding min_epoch
  scan_alone [] w b m e =
      (turns w b (scanned m), next here (end_scan b m e), refl, at-turns w b (scanned m))
  scan_alone (x ∷ rest) w b m e =
      let (v, r, same, at) = look_alone w b m x rest e in
      let (u, q, same', at') = scan_alone rest v b _ at in
      (
        u,
        Reach-trans r q,
        same' ∙ same,
        at' ∙ ap (λ (d : Ebr). scanned (min_epoch d.tcb rest (scan_step (w.ebr.tcb x) m))) same,
      )

  exchange_alone :
      (w : World) (b m : ℕ)
      → w.task b ≡ scanned m
      → Turned w b
          (record w.ebr {
            global_epoch =
                if m == w.ebr.global_epoch then suc w.ebr.global_epoch else w.ebr.global_epoch;
          })
          (sweeping m)
  unfolding exchange_epoch
  exchange_alone w b m e =
      let global = w.ebr.global_epoch in
      let v = turns w b (after_global m global) in
      let first : Reach a n w v = next here (load_global b m e) in
      elim (Bool-cases (m == global)) [
        | inl same ↦
            let at : v.task b ≡ swapping m global = at-turns w b _ ∙ rw same refl in
            let u = turns (record v { ebr = exchange_epoch v.ebr global }) b (sweeping m) in
            (
              u,
              next first (swap b m global at),
              rw (same, ==-self global) refl,
              at-turns (record v { ebr = exchange_epoch v.ebr global }) b _,
            )
        | inr other ↦ (v, first, rw other refl, at-turns w b _ ∙ rw other refl)
      ]

  -- The accesses of a Gc that nobody comes between add up to the whole operation.
  pub gc_alone : (w : World) (b : ℕ) → w.task b ≡ idle → Turned w b (gc w.ebr (some b)) idle
  unfolding gc sweep_own
  gc_alone w b e =
      let v1 = turns w b (started w.ebr.global_epoch) in
      let v2 = turns v1 b (scanning w.ebr.global_epoch w.ebr.chain) in
      let begun : Reach a n w v1 = next here (begin_gc b e) in
      let headed : Reach a n w v2 = next begun (load_head b w.ebr.global_epoch (at-turns w b _)) in
      let m = min_epoch w.ebr.tcb w.ebr.chain w.ebr.global_epoch in
      let (v3, scans, same, at) =
        scan_alone w.ebr.chain v2 b w.ebr.global_epoch (at-turns v1 b _) in
      let (v4, exchanges, same', at') = exchange_alone v3 b m at in
      let v5 : World = record v4 { ebr = sweep_own v4.ebr b m } in
      let stepped : (d : Ebr) → Ebr = λ d. record d {
        global_epoch = if m == d.global_epoch then suc d.global_epoch else d.global_epoch;
      } in
      (
        turns v5 b idle,
        next (Reach-trans headed (Reach-trans scans exchanges)) (sweep_batches b m at'),
        ap (λ (d : Ebr). sweep_own d b m) (same' ∙ ap stepped same),
        at-turns v5 b idle,
      )
