-- ===== src/Ring/Registration.antt =====
-- RegisterReader, UnregisterReader, Advance and the producer's eviction on one slot of the roster,
-- with any number of consumers at once. Each atomic access of RegisterReader and of Advance to the
-- slot is a step, and so is the producer's look at the slot.
use hotpathcplusplus.Base.{ℕ, suc, ◌≡◌, true, false, ◌==◌, if◌then◌else◌, update, add32}
use hotpathcplusplus.Ring.Types.{ReaderSlot, empty_slot}
use hotpathcplusplus.Ring.Producer.{visit_slot}

-- Where a consumer stands, with the generation that it has got.
pub data Claim : Type 0 where
  unbound : Claim
  claimed : Claim
  counted : (gen : ℕ) → Claim
  identified : (gen : ℕ) → Claim
  placed : (gen : ℕ) → Claim
  registered : (gen : ℕ) → Claim
  -- in Advance, past the test of the generation, and past the store of the cursor
  advancing : (gen cursor : ℕ) → Claim
  beating : (gen : ℕ) → Claim

-- The slot, the consumers, and how often generation_id has been counted up.
pub record SharedSlot : Type 0 where
  pub slot : ReaderSlot
  pub at : ℕ → Claim
  pub counts : ℕ

abbrev pub fresh_slot : SharedSlot
fresh_slot = record { slot = empty_slot; at = λ i. unbound; counts = 0 }

unfoldable pub goes : SharedSlot → ℕ → Claim → ReaderSlot → SharedSlot
goes s i c slot = record s { slot = slot; at = update s.at i c }

-- `generation_id.fetch_add(1) + 1`
unfoldable pub fetch_add : SharedSlot → ℕ → SharedSlot
fetch_add s i =
    let gen = add32 s.slot.generation_id 1 in
    record {
      slot = record s.slot { generation_id = gen };
      at = update s.at i (counted gen);
      counts = suc s.counts;
    }

-- The compare-exchange of Advance, which tests the generation, and where it fails the store of -1 in
-- the reader.
unfoldable pub compare_generation : SharedSlot → ℕ → ℕ → ℕ → SharedSlot
unfolding goes
compare_generation s i gen cursor =
    if s.slot.generation_id == gen
    then goes s i (advancing gen cursor) s.slot
    else goes s i unbound s.slot

-- the store of the cursor in Advance, which makes no further test
unfoldable pub move_cursor : SharedSlot → ℕ → ℕ → ℕ → SharedSlot
unfolding goes
move_cursor s i gen cursor = goes s i (beating gen) (record s.slot { cursor = cursor })

pub data Step (s : SharedSlot) : SharedSlot → Type 0 where
  exchange :
      (i : ℕ)
      → s.at i ≡ unbound
      → s.slot.active ≡ false
      → Step s (goes s i claimed (record s.slot { active = true }))
  count_up : (i : ℕ) → s.at i ≡ claimed → Step s (fetch_add s i)
  store_pid :
      (i gen pid : ℕ)
      → s.at i ≡ counted gen
      → Step s (goes s i (identified gen) (record s.slot { pid = pid }))
  store_cursor :
      (i gen cursor : ℕ)
      → s.at i ≡ identified gen
      → Step s (goes s i (placed gen) (record s.slot { cursor = cursor }))
  store_heartbeat :
      (i gen now : ℕ)
      → s.at i ≡ placed gen
      → Step s (goes s i (registered gen) (record s.slot { heartbeat_ts = now }))
  compare :
      (i gen cursor : ℕ) → s.at i ≡ registered gen → Step s (compare_generation s i gen cursor)
  move : (i gen cursor : ℕ) → s.at i ≡ advancing gen cursor → Step s (move_cursor s i gen cursor)
  beat :
      (i gen now : ℕ)
      → s.at i ≡ beating gen
      → Step s (goes s i (registered gen) (record s.slot { heartbeat_ts = now }))
  unregister :
      (i gen : ℕ)
      → s.at i ≡ registered gen
      → Step s (goes s i unbound (record s.slot { active = false }))
  visit : (now timeout : ℕ) → Step s (record s { slot = visit_slot now timeout s.slot })

pub data Reach (s : SharedSlot) : SharedSlot → Type 0 where
  here : Reach s s
  next : {t u : SharedSlot} → Reach s t → Step t u → Reach s u
