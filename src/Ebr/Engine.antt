-- ===== src/Ebr/Engine.antt =====
-- The engine of common/concurrency/ebr.cc: thread control blocks on a heap, linked from `head_`,
-- the global epoch, and the nodes that were deleted so far. Each function takes the state that the
-- threads share and the calling thread's own variables. A node is its address; `none` is nullptr.
use hotpathcplusplus.Base.{
  ℕ, zero, suc, Bool, true, false, List, [], ◌∷◌, ◌++◌, Option, none, some, update, length, ltb,
  leb, ◌==◌, if◌then◌else◌, not, ◌&&◌,
}

pub record Batch : Type 0 where
  pub epoch : ℕ
  pub nodes : List ℕ

-- `next` is the order of `chain` below.
pub record ThreadControlBlock : Type 0 where
  pub local_epoch : ℕ
  pub active : Bool
  pub retirement_batches : List Batch

pub record Ebr : Type 0 where
  pub global_epoch : ℕ
  pub tcb : ℕ → ThreadControlBlock
  pub chain : List ℕ  -- the blocks from `head_` on
  pub fresh : ℕ  -- the next address that `new` returns
  pub deleted : List ℕ

-- `critical_depth` is an int: `below n` is -(n + 1).
pub data Depth : Type 0 where
  depth : ℕ → Depth
  below : ℕ → Depth

pub record Tls : Type 0 where
  pub tls_tcb : Option ℕ
  pub critical_depth : Depth

abbrev pub inactive : ℕ
inactive = 0

abbrev pub batch_threshold : ℕ
batch_threshold = 64

unfoldable pub new_tcb : ThreadControlBlock
new_tcb = record { local_epoch = inactive; active = true; retirement_batches = [] }

-- `new` and the push on `head_`: the state and the block's address
unfoldable pub add_thread : Ebr → Ebr × ℕ
unfolding new_tcb
add_thread e = (
  record e { tcb = update e.tcb e.fresh new_tcb; chain = e.fresh ∷ e.chain; fresh = suc e.fresh },
  e.fresh,
)

-- the calling thread's block, registered first if need be
unfoldable pub ensure_thread : Ebr → Tls → Ebr × Tls × ℕ
unfolding add_thread
ensure_thread e t = elim t.tls_tcb [
  | some a ↦ (e, t, a)
  | none ↦ let (e', a) = add_thread e in (e', record t { tls_tcb = some a }, a)
]

unfoldable pub register_thread : Ebr → Tls → Ebr × Tls
unfolding ensure_thread
register_thread e t = let (e', t', _) = ensure_thread e t in (e', t')

unfoldable pub unregister_thread : Ebr → Tls → Ebr × Tls
unregister_thread e t = elim t.tls_tcb [
  | none ↦ (e, t)
  | some a ↦ (
    record e { tcb = update e.tcb a (record (e.tcb a) { active = false; local_epoch = inactive }) },
    record t { tls_tcb = none },
  )
]

unfoldable pub announce : Ebr → ℕ → ℕ → Ebr
announce e a epoch = record e { tcb = update e.tcb a (record (e.tcb a) { local_epoch = epoch }) }

unfoldable pub increment : Depth → Depth
increment (depth n) = depth (suc n)
increment (below zero) = depth zero
increment (below (suc n)) = below n

unfoldable pub decrement : Depth → Depth
decrement (depth zero) = below zero
decrement (depth (suc n)) = depth n
decrement (below n) = below (suc n)

abbrev pub is_zero : Depth → Bool
is_zero (depth zero) = true
is_zero (depth (suc n)) = false
is_zero (below n) = false

-- EnterCritical: the outermost call loads the global epoch and announces it.
unfoldable pub enter_critical : Ebr → Tls → Ebr × Tls
unfolding ensure_thread announce increment
enter_critical e t =
    let (e', t', a) = ensure_thread e t in
    (
      if is_zero t'.critical_depth then announce e' a e'.global_epoch else e',
      record t' { critical_depth = increment t'.critical_depth },
    )

-- ExitCritical: the outermost call withdraws the announcement.
unfoldable pub exit_critical : Ebr → Tls → Ebr × Tls
unfolding announce decrement
exit_critical e t = elim t.tls_tcb [
  | none ↦ (e, t)
  | some a ↦
      let d = decrement t.critical_depth in
      (if is_zero d then announce e a inactive else e, record t { critical_depth = d })
]

unfoldable pub is_in_critical : Tls → Bool
is_in_critical t = elim t.critical_depth [ depth n ↦ ltb 0 n | below n ↦ false ]

-- one step of the scan over the blocks
abbrev pub scan_step : ThreadControlBlock → ℕ → ℕ
scan_step b min_epoch =
    if b.active && (not (b.local_epoch == inactive) && ltb b.local_epoch min_epoch)
    then b.local_epoch
    else min_epoch

unfoldable pub min_epoch : (ℕ → ThreadControlBlock) → List ℕ → ℕ → ℕ
min_epoch tcb [] m = m
min_epoch tcb (a ∷ rest) m = min_epoch tcb rest (scan_step (tcb a) m)

-- the batches that are old enough, deleted, and those that are kept
unfoldable pub sweep : ℕ → List Batch → List ℕ × List Batch
sweep m [] = ([], [])
sweep m (b ∷ bs) =
    let (gone, kept) = sweep m bs in
    if ltb b.epoch m then (b.nodes ++ gone, kept) else (gone, b ∷ kept)

-- Gc: the scan, the step of the global epoch, and the caller's own batches
unfoldable pub gc : Ebr → Option ℕ → Ebr
unfolding min_epoch sweep
gc e caller =
    let m = min_epoch e.tcb e.chain e.global_epoch in
    let e' : Ebr = record e {
      global_epoch = if m == e.global_epoch then suc e.global_epoch else e.global_epoch;
    } in
    elim caller [
      | none ↦ e'
      | some a ↦
          let (gone, kept) = sweep m (e.tcb a).retirement_batches in
          record e' {
            tcb = update e.tcb a (record (e.tcb a) { retirement_batches = kept });
            deleted = e.deleted ++ gone;
          }
    ]

-- `back()` of the batches takes the node, or a new batch does
unfoldable pub add_node : ℕ → ℕ → List Batch → List Batch
add_node epoch n [] = record { epoch = epoch; nodes = n ∷ [] } ∷ []
add_node epoch n (b ∷ []) =
    if b.epoch == epoch
    then record b { nodes = b.nodes ++ n ∷ [] } ∷ []
    else b ∷ record { epoch = epoch; nodes = n ∷ [] } ∷ []
add_node epoch n (b ∷ c ∷ bs) = b ∷ add_node epoch n (c ∷ bs)

unfoldable pub back_size : List Batch → ℕ
back_size [] = 0
back_size (b ∷ []) = length b.nodes
back_size (b ∷ c ∷ bs) = back_size (c ∷ bs)

-- the node put into the block's batches, at an epoch that was loaded before
unfoldable pub push_node : Ebr → ℕ → ℕ → ℕ → Ebr
unfolding add_node
push_node e a epoch n = record e {
  tcb =
      update e.tcb a
        (record (e.tcb a) { retirement_batches = add_node epoch n (e.tcb a).retirement_batches });
}

unfoldable pub enlist : Ebr → ℕ → ℕ → Ebr
unfolding push_node
enlist e a n = push_node e a e.global_epoch n

unfoldable pub retire : Ebr → Tls → Option ℕ → Ebr × Tls
unfolding ensure_thread enlist back_size gc
retire e t none = (e, t)
retire e t (some n) =
    let (e', t', a) = ensure_thread e t in
    let e'' = enlist e' a n in
    (
      if leb batch_threshold (back_size (e''.tcb a).retirement_batches)
          then gc e'' (some a)
          else e'',
      t',
    )
