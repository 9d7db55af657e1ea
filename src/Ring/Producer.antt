-- ===== src/Ring/Producer.antt =====
-- The producer's half of common/shared_memory/broadcast_ring_buffer.cc: Reserve, with its wait for
-- readers, and Commit. What other processes and the clocks do meanwhile is an argument.
use hotpathcplusplus.Base.{
  ℕ, ◌+◌, ◌-◌, ◌%◌, ◌^◌, Bool, false, List, [], ◌∷◌, Option, none, some, ltb, leb, if◌then◌else◌,
  not, bit_or, add64, sub64, add32,
}
use hotpathcplusplus.Status.{StatusOr, value, error, permission_denied, invalid_argument}
use hotpathcplusplus.Ring.Memory.{Memory, load, store, write_bytes}
use hotpathcplusplus.Ring.Types.{ReaderSlot, RingBuffer, frame_header_size, aligned_payload_size}

-- `now - heartbeat_ts > evict_timeout_ns_`
abbrev pub is_stale : ℕ → ℕ → ReaderSlot → Bool
is_stale now timeout s = ltb timeout (now - s.heartbeat_ts)

-- one round of the `for` loop over the roster: the slot and the minimum after it
unfoldable pub visit_slot : ℕ → ℕ → ReaderSlot → ReaderSlot
visit_slot now timeout s =
    if s.active then if is_stale now timeout s then record s { active = false } else s else s

unfoldable pub visit_min : ℕ → ℕ → ℕ → ReaderSlot → ℕ
visit_min now timeout min_c s =
    if s.active
    then if is_stale now timeout s then min_c else if ltb s.cursor min_c then s.cursor else min_c
    else min_c

unfoldable pub scan_readers : ℕ → ℕ → ℕ → List ReaderSlot → ℕ × List ReaderSlot
scan_readers now timeout min_c [] = (min_c, [])
scan_readers now timeout min_c (s ∷ ss) =
    let (m, rest) = scan_readers now timeout (visit_min now timeout min_c s) ss in
    (m, visit_slot now timeout s ∷ rest)

-- What one round of the wait sees: the cycle counter, the clock that it may read, and what the
-- other processes have done to the roster since the round before.
pub record Round : Type 0 where
  pub tsc : ℕ
  pub clock : ℕ
  pub others : List ReaderSlot → List ReaderSlot

-- `while (true)` over the rounds given; `none` if the producer is still waiting after the last.
unfoldable pub wait_for_readers :
    ℕ → ℕ → ℕ → ℕ → ℕ → List ReaderSlot → List Round → Option (ℕ × List ReaderSlot)
wait_for_readers capacity target timeout now last_tsc readers [] = none
wait_for_readers capacity target timeout now last_tsc readers (round ∷ rounds) =
    let due = ltb 100000 (sub64 round.tsc last_tsc) in
    let now' = if due then round.clock else now in
    let last' = if due then round.tsc else last_tsc in
    let (min_c, readers') = scan_readers now' timeout target (round.others readers) in
    let rest = wait_for_readers capacity target timeout now' last' readers' rounds in
    if leb (sub64 target min_c) capacity then some (min_c, readers') else rest

-- the clocks before the loop, the rounds of the loop, and the frame's timestamp
pub record Environment : Type 0 where
  pub now : ℕ
  pub tsc : ℕ
  pub rounds : List Round
  pub stamp : ℕ

-- the backpressure check: the minimum to cache and the roster
unfoldable pub backpressure : RingBuffer → ℕ → Environment → Option (ℕ × List ReaderSlot)
unfolding wait_for_readers scan_readers
backpressure r target env =
    if ltb r.capacity (sub64 target r.cached_min_cursor)
    then wait_for_readers r.capacity target r.evict_timeout_ns env.now env.tsc r.header.readers
        env.rounds
    else some (r.cached_min_cursor, r.header.readers)

-- the header of the claimed frame: version made odd, then length, type and timestamp
unfoldable pub write_header : ℕ → Memory → ℕ → ℕ → ℕ → ℕ → Memory
write_header capacity m offset payload_size type_id stamp =
    let m0 = store capacity m offset 4 (bit_or (load capacity m offset 4) 1) in
    let m1 = store capacity m0 (offset + 4) 4 payload_size in
    let m2 = store capacity m1 (offset + 8) 4 type_id in store capacity m2 (offset + 16) 8 stamp

unfoldable pub required_space : ℕ → ℕ
required_space payload_size = frame_header_size + aligned_payload_size payload_size

-- the ring after the claim at the current cursor
unfoldable pub claim : RingBuffer → ℕ → ℕ → ℕ → ℕ → ℕ → List ReaderSlot → RingBuffer
unfolding write_header
claim r payload_size type_id target stamp min_c readers =
    let offset = r.header.producer_cursor % r.capacity in
    record r {
      header = record r.header { producer_cursor = target; readers = readers };
      data_buffer = write_header r.capacity r.data_buffer offset payload_size type_id stamp;
      reservation = record {
        claimed_cursor = target;
        start_offset = offset;
        total_frame_size = required_space payload_size % 2 ^ 32;
      };
      cached_min_cursor = min_c;
    }

-- Reserve: the address of the payload and the new ring; `none` while the producer still waits.
unfoldable pub reserve : RingBuffer → ℕ → ℕ → Environment → Option (StatusOr ℕ × RingBuffer)
unfolding required_space
reserve r payload_size type_id env =
    let required = required_space payload_size in
    let target = add64 r.header.producer_cursor required in
    if not r.is_producer
    then some (error permission_denied, r)
    else if ltb r.capacity required
    then some (error invalid_argument, r)
    else elim (backpressure r target env) [
      | none ↦ none
      | some (min_c, readers) ↦ some (
        value (r.header.producer_cursor % r.capacity + frame_header_size),
        claim r payload_size type_id target env.stamp min_c readers,
      )
    ]

-- Commit: the version made even, then the commit cursor
unfoldable pub commit : RingBuffer → RingBuffer
commit r =
    let offset = r.reservation.start_offset in
    record r {
      header = record r.header { commit_cursor = r.reservation.claimed_cursor };
      data_buffer =
          store r.capacity r.data_buffer offset 4
            (add32 (load r.capacity r.data_buffer offset 4) 1);
    }

-- The producer's own writes through the pointer that Reserve returned.
unfoldable pub write_payload : RingBuffer → ℕ → List ℕ → RingBuffer
write_payload r address payload = record r {
  data_buffer = write_bytes r.capacity r.data_buffer address payload;
}
