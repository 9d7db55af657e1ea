-- ===== src/Ebr/Safety.antt =====
-- The threads interleaved, one access to the shared state at a time, around one reader's block `a`
-- and one node `n`: EnterCritical of the reader is the load of the global epoch and its
-- announcement, Retire the load of the epoch and the push, Gc each of its loads, the
-- compare-exchange and the loop over the thread's own batches. A thread is named by its block.
-- Atomics are sequentially consistent here.
use hotpathcplusplus.Base.{ℕ, ◌≤◌, ◌<◌, ◌≡◌, ◌⊎◌, ◌≢◌, true, List, [], ◌∷◌, some, update}
use hotpathcplusplus.Ebr.Engine.{
  Batch, Ebr, Tls, add_thread, unregister_thread, announce, push_node,
}
use hotpathcplusplus.Ebr.Tasks.{
  Task, idle, retiring, started, scanning, looking, scanned, swapping, sweeping, after_active,
  lower, after_global, exchange_epoch, sweep_own,
}
use hotpathcplusplus.Ebr.Collect.{In, Batched}

-- the reader: outside, between load and announcement, in its section, and with a reference to `n`
pub data Reader : Type 0 where
  outside : Reader
  loaded : ℕ → Reader
  inside : Reader
  holding : Reader

-- the node: reachable, unlinked by its writer, handed to Retire
pub data Link : Type 0 where
  linked unlinked retired : Link

pub record World : Type 0 where
  pub ebr : Ebr
  pub task : ℕ → Task
  pub reader : Reader
  pub link : Link

-- thread `b` goes on to `t`
abbrev pub turns : World → ℕ → Task → World
turns w b t = record w { task = update w.task b t }

module _ (a n : ℕ) where
  -- Other threads may announce any epoch. Any thread that is in neither may begin Retire or Gc;
  -- `end_gc` is for a thread that has no block.
  pub data Step (w : World) : World → Type 0 where
    load_epoch : w.reader ≡ outside → Step w (record w { reader = loaded w.ebr.global_epoch })
    publish :
        (epoch : ℕ)
        → w.reader ≡ loaded epoch
        → Step w (record w { ebr = announce w.ebr a epoch; reader = inside })
    take : w.reader ≡ inside → w.link ≡ linked → Step w (record w { reader = holding })
    leave : Step w (record w { ebr = announce w.ebr a 0; reader = outside })
    unlink : w.link ≡ linked → Step w (record w { link = unlinked })
    retire_node :
        (b : ℕ)
        → w.task b ≡ idle
        → w.link ≡ unlinked
        → Step w (record (turns w b (retiring n w.ebr.global_epoch)) { link = retired })
    retire_other :
        (b m : ℕ) → w.task b ≡ idle → n ≢ m → Step w (turns w b (retiring m w.ebr.global_epoch))
    push :
        (b m epoch : ℕ)
        → w.task b ≡ retiring m epoch
        → Step w (turns (record w { ebr = push_node w.ebr b epoch m }) b idle)
    begin_gc : (b : ℕ) → w.task b ≡ idle → Step w (turns w b (started w.ebr.global_epoch))
    load_head : (b m : ℕ) → w.task b ≡ started m → Step w (turns w b (scanning m w.ebr.chain))
    load_active :
        (b m x : ℕ) (rest : List ℕ)
        → w.task b ≡ scanning m (x ∷ rest)
        → Step w (turns w b (after_active (w.ebr.tcb x).active m x rest))
    load_local :
        (b m x : ℕ) (rest : List ℕ)
        → w.task b ≡ looking m x rest
        → Step w (turns w b (scanning (lower (w.ebr.tcb x).local_epoch m) rest))
    end_scan : (b m : ℕ) → w.task b ≡ scanning m [] → Step w (turns w b (scanned m))
    load_global :
        (b m : ℕ) → w.task b ≡ scanned m → Step w (turns w b (after_global m w.ebr.global_epoch))
    swap :
        (b m global : ℕ)
        → w.task b ≡ swapping m global
        → Step w (turns (record w { ebr = exchange_epoch w.ebr global }) b (sweeping m))
    sweep_batches :
        (b m : ℕ)
        → w.task b ≡ sweeping m
        → Step w (turns (record w { ebr = sweep_own w.ebr b m }) b idle)
    end_gc : (b m : ℕ) → w.task b ≡ sweeping m → Step w (turns w b idle)
    announce_other : (b epoch : ℕ) → b ≢ a → Step w (record w { ebr = announce w.ebr b epoch })
    spawn : Step w (record w { ebr = (add_thread w.ebr).0 })
    quit_other :
        (t : Tls) → t.tls_tcb ≢ some a → Step w (record w { ebr = (unregister_thread w.ebr t).0 })

  pub data Reach (s : World) : World → Type 0 where
    here : Reach s s
    next : {t u : World} → Reach s t → Step t u → Reach s u

  -- the epochs of batches that may hold the node
  abbrev pub Old : Link → ℕ → ℕ → Type 0
  Old linked epoch e = ⊥
  Old unlinked epoch e = ⊥
  Old retired epoch e = epoch ≤ e

  -- what a thread in Gc may still do to its batches of epoch `e`: its bound spares them, or it has yet
  -- to look at the reader's block
  abbrev pub Covers : Task → ℕ → Type 0
  Covers idle e = Unit
  Covers (retiring x epoch) e = Unit
  Covers (started m) e = Unit
  Covers (scanning m rest) e = (m ≤ e) ⊎ In a rest
  Covers (looking m x rest) e = (m ≤ e) ⊎ In a (x ∷ rest)
  Covers (scanned m) e = m ≤ e
  Covers (swapping m global) e = m ≤ e
  Covers (sweeping m) e = m ≤ e

  -- where a thread has loaded an epoch for the node but not yet put it into a batch
  abbrev pub Waits : Link → ℕ → Task → Type 0
  Waits l epoch (retiring x k) = n ≡ x → Old l epoch k
  Waits l epoch _ = Unit

  -- a thread with its batches, at the reader's epoch `epoch`
  abbrev pub Fine : Link → ℕ → Task → List Batch → Type 0
  Fine l epoch t bs = Batched (λ e. Old l epoch e × Covers t e) n bs × Waits l epoch t

  -- the moments at which the node must be alive
  abbrev pub Guarded : Link → Reader → Type 0
  Guarded linked r = Unit
  Guarded unlinked r = Unit
  Guarded retired holding = Unit
  Guarded retired _ = ⊥

  -- what the reader has loaded or announced
  abbrev pub Staged : Reader → ℕ → ℕ → Type 0
  Staged outside epoch global = Unit
  Staged (loaded e) epoch global = (0 < e) × (e ≤ global)
  Staged inside epoch global = (0 < epoch) × (epoch ≤ global)
  Staged holding epoch global = (0 < epoch) × (epoch ≤ global)

  -- What protects the node, at the reader's epoch `epoch`.
  abbrev pub Safe : Ebr → (ℕ → Task) → Reader → Link → ℕ → Type 0
  Safe e task r l epoch =
      Guarded l r
      → (In n e.deleted → ⊥) × ((b : ℕ) → Fine l epoch (task b) (e.tcb b).retirement_batches)

  pub record Inv (w : World) : Type 0 where
    pub chained : In a w.ebr.chain
    pub live : (w.ebr.tcb a).active ≡ true
    pub young : a < w.ebr.fresh
    pub positive : 0 < w.ebr.global_epoch
    pub staged : Staged w.reader (w.ebr.tcb a).local_epoch w.ebr.global_epoch
    pub safe : Safe w.ebr w.task w.reader w.link (w.ebr.tcb a).local_epoch
