-- ===== src/Ebr/Tasks.antt =====
-- Retire and Gc of common/concurrency/ebr.cc cut at their accesses to what the threads share: what
-- a thread has still to do, and what each access does. A thread's batches are its own.
use hotpathcplusplus.Base.{ℕ, suc, Bool, List, ◌++◌, update, ltb, ◌==◌, if◌then◌else◌, not, ◌&&◌}
use hotpathcplusplus.Ebr.Engine.{Ebr, inactive, sweep}

-- Where a thread stands in Retire or Gc, with its local variables: `min_epoch` is the first of each
-- but `retiring`, and `rest` the blocks from `curr` on.
pub data Task : Type 0 where
  idle : Task
  retiring : (node current_epoch : ℕ) → Task
  started : (min_epoch : ℕ) → Task
  scanning : (min_epoch : ℕ) (rest : List ℕ) → Task
  looking : (min_epoch curr : ℕ) (rest : List ℕ) → Task
  scanned : (min_epoch : ℕ) → Task
  swapping : (min_epoch current_global : ℕ) → Task
  sweeping : (min_epoch : ℕ) → Task

-- what the load of `active` of block `curr` leads to
abbrev pub after_active : Bool → (min_epoch curr : ℕ) → List ℕ → Task
after_active active min_epoch curr rest =
    if active then looking min_epoch curr rest else scanning min_epoch rest

-- `min_epoch` after the load of a block's local epoch
abbrev pub lower : (local min_epoch : ℕ) → ℕ
lower local min_epoch = if not (local == inactive) && ltb local min_epoch then local else min_epoch

-- what the second load of the global epoch leads to
abbrev pub after_global : (min_epoch current_global : ℕ) → Task
after_global min_epoch current_global =
    if min_epoch == current_global then swapping min_epoch current_global else sweeping min_epoch

-- `global_epoch_.compare_exchange_strong(current_global, current_global + 1)`
unfoldable pub exchange_epoch : Ebr → (current_global : ℕ) → Ebr
exchange_epoch e current_global = record e {
  global_epoch = if e.global_epoch == current_global then suc current_global else e.global_epoch;
}

-- the loop over the batches of the calling thread, which has block `a`
unfoldable pub sweep_own : Ebr → (a min_epoch : ℕ) → Ebr
unfolding sweep
sweep_own e a min_epoch =
    let (gone, kept) = sweep min_epoch (e.tcb a).retirement_batches in
    record e {
      tcb = update e.tcb a (record (e.tcb a) { retirement_batches = kept });
      deleted = e.deleted ++ gone;
    }
