-- ===== src/Events/Battle.antt =====
-- RunBattle1Suite of common/cpp_vs_java_jit/challenge.cc without its clocks: a ring of events as
-- objects and as flat values, and the three loops that process them. A power of two minus one as a
-- mask is a remainder; signed words wrap as in Flat.
use hotpathcplusplus.Base.{
  ℕ, zero, suc, ◌+◌, ◌%◌, ◌<◌, ◌≡◌, refl, sym, ap, ap₂, ◌∙◌, List, [], ◌∷◌, get_or, ◌==◌,
  if◌then◌else◌, add64, sub64, Bool-cases, inl, inr, arith,
}
use hotpathcplusplus.Events.Flat.{
  EventObject, make_event_by_type, process_heap_alloc, process_no_alloc, FlatEvent, process_inline,
  process_inline-process_no_alloc,
}

abbrev pub battle1_batch_size : ℕ
battle1_batch_size = 4096

-- the two patterns of tags: nearly all of one type, and five types in turn
unfoldable pub mono_tag : ℕ → ℕ
mono_tag i = if i % 1000 == 999 then 1 else 0

unfoldable pub mega_tag : ℕ → ℕ
mega_tag i = i % 5

-- `n` elements of mono_ring or mega_ring from index `i` on
unfoldable pub event_ring : (ℕ → ℕ) → ℕ → ℕ → List EventObject
event_ring tag i zero = []
event_ring tag i (suc n) =
    make_event_by_type (tag i) (100 + i % 64) (10 + i % 16) 42 ∷ event_ring tag (i + 1) n

-- the same of flat_mono or flat_mega
unfoldable pub flat_ring : (ℕ → ℕ) → ℕ → ℕ → List FlatEvent
flat_ring tag i zero = []
flat_ring tag i (suc n) =
    record { price = 100 + i % 64; qty = 10 + i % 16; symbol_id = 42; type_tag = tag i }
    ∷ flat_ring tag (i + 1) n

-- The loop over new objects: `n` more operations from operation `i` on.
unfoldable pub naive_loop : (ℕ → ℕ) → ℕ → ℕ → ℕ → ℕ
naive_loop tag zero i acc = acc
naive_loop tag (suc n) i acc =
    let ev = make_event_by_type (tag (i % battle1_batch_size)) (100 + i % 64) (10 + i % 16) 42 in
    let res = process_heap_alloc ev in
    naive_loop tag n (i + 1) (add64 acc (sub64 res.notional res.fee_ticks))

-- bench_virtual
unfoldable pub bench_virtual : List EventObject → ℕ → ℕ → ℕ → ℕ
bench_virtual ring zero i acc = acc
bench_virtual ring (suc n) i acc =
    let ev = get_or ring (i % battle1_batch_size) (make_event_by_type 0 0 0 0) in
    bench_virtual ring n (i + 1) (add64 acc (process_no_alloc ev))

-- bench_flat
unfoldable pub bench_flat : List FlatEvent → ℕ → ℕ → ℕ → ℕ
bench_flat ring zero i acc = acc
bench_flat ring (suc n) i acc =
    let ev =
      get_or ring (i % battle1_batch_size)
        (record { price = 0; qty = 0; symbol_id = 0; type_tag = 0 }) in
    bench_flat ring n (i + 1) (add64 acc (process_inline ev))

abbrev no_event : FlatEvent
no_event = record { price = 0; qty = 0; symbol_id = 0; type_tag = 0 }

get_or-event_ring :
    (tag : ℕ → ℕ) (i n j : ℕ)
    → j < n
    → get_or (event_ring tag i n) j (make_event_by_type 0 0 0 0)
      ≡ make_event_by_type (tag (i + j)) (100 + (i + j) % 64) (10 + (i + j) % 16) 42
unfolding event_ring
get_or-event_ring tag i zero j h = absurd (omega arith)
get_or-event_ring tag i (suc n) zero h =
    ap (λ (k : ℕ). make_event_by_type (tag k) (100 + k % 64) (10 + k % 16) 42) (omega arith)
get_or-event_ring tag i (suc n) (suc j) h =
    get_or-event_ring tag (i + 1) n j (omega arith)
    ∙ ap (λ (k : ℕ). make_event_by_type (tag k) (100 + k % 64) (10 + k % 16) 42) (omega arith)

rings_agree :
    (tag : ℕ → ℕ) (i n j : ℕ)
    → process_inline (get_or (flat_ring tag i n) j no_event)
      ≡ process_no_alloc (get_or (event_ring tag i n) j (make_event_by_type 0 0 0 0))
unfolding event_ring flat_ring
rings_agree tag i zero j = process_inline-process_no_alloc no_event
rings_agree tag i (suc n) zero = process_inline-process_no_alloc _
rings_agree tag i (suc n) (suc j) = rings_agree tag (i + 1) n j

-- Over any ring the flat values give what the objects give.
bench_flat-bench_virtual :
    (tag : ℕ → ℕ) (size n i acc : ℕ)
    → bench_flat (flat_ring tag 0 size) n i acc ≡ bench_virtual (event_ring tag 0 size) n i acc
unfolding bench_flat bench_virtual
bench_flat-bench_virtual tag size zero i acc = refl
bench_flat-bench_virtual tag size (suc n) i acc =
    bench_flat-bench_virtual tag size n (i + 1)
      (add64 acc (process_inline (get_or (flat_ring tag 0 size) (i % battle1_batch_size) no_event)))
    ∙ ap (λ (x : ℕ). bench_virtual (event_ring tag 0 size) n (i + 1) (add64 acc x))
        (rings_agree tag 0 size (i % battle1_batch_size))

-- A limit order or a cancel nets the same with and without a result object.
net_mono :
    (k p q s : ℕ)
    → let ev = make_event_by_type (mono_tag k) p q s in
      let res = process_heap_alloc ev in sub64 res.notional res.fee_ticks ≡ process_no_alloc ev
unfolding mono_tag make_event_by_type process_heap_alloc process_no_alloc
net_mono k p q s = elim (Bool-cases (k % 1000 == 999)) [
  | inl e ↦ rw e (omega arith)
  | inr e ↦ rw e refl
]

-- The event of the ring at operation `i` is the one that the naive loop makes.
mono_event :
    (i : ℕ)
    → get_or
        (event_ring mono_tag 0 battle1_batch_size)
        (i % battle1_batch_size)
        (make_event_by_type 0 0 0 0)
      ≡ make_event_by_type (mono_tag (i % battle1_batch_size)) (100 + i % 64) (10 + i % 16) 42
mono_event i =
    let j = i % battle1_batch_size in
    let same : 0 + j ≡ j = omega arith in
    let price : (0 + j) % 64 ≡ i % 64 = omega arith in
    let qty : (0 + j) % 16 ≡ i % 16 = omega arith in
    get_or-event_ring mono_tag 0 battle1_batch_size j (omega arith)
    ∙ ap (λ (k : ℕ). make_event_by_type (mono_tag k) (100 + (0 + j) % 64) (10 + (0 + j) % 16) 42)
        same
    ∙ ap₂ (λ (p q : ℕ). make_event_by_type (mono_tag j) (100 + p) (10 + q) 42) price qty

naive_loop-bench_virtual :
    (n i acc : ℕ)
    → naive_loop mono_tag n i acc ≡ bench_virtual (event_ring mono_tag 0 battle1_batch_size) n i acc
unfolding naive_loop bench_virtual
naive_loop-bench_virtual zero i acc = refl
naive_loop-bench_virtual (suc n) i acc =
    let j = i % battle1_batch_size in
    let net =
      net_mono j (100 + i % 64) (10 + i % 16) 42 ∙ ap process_no_alloc (sym (mono_event i)) in
    ap (λ (x : ℕ). naive_loop mono_tag n (i + 1) (add64 acc x)) net
    ∙ naive_loop-bench_virtual n (i + 1) _

-- All three loops over the ring of nearly one type accumulate the same, and the two without result
-- objects also over the ring of five types, for any number of operations.
pub loops_agree :
    (n : ℕ)
    → let events = event_ring mono_tag 0 battle1_batch_size in
      let mega = event_ring mega_tag 0 battle1_batch_size in
      (naive_loop mono_tag n 0 0 ≡ bench_virtual events n 0 0)
      × (bench_flat (flat_ring mono_tag 0 battle1_batch_size) n 0 0 ≡ bench_virtual events n 0 0)
      × (bench_flat (flat_ring mega_tag 0 battle1_batch_size) n 0 0 ≡ bench_virtual mega n 0 0)
loops_agree n = (
  naive_loop-bench_virtual n 0 0,
  bench_flat-bench_virtual mono_tag battle1_batch_size n 0 0,
  bench_flat-bench_virtual mega_tag battle1_batch_size n 0 0,
)
