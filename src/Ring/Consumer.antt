-- ===== src/Ring/Consumer.antt =====
-- The consumer's half of common/shared_memory/broadcast_ring_buffer.cc: registration, the two
-- polls and Advance. The clock and the process id are arguments.
use hotpathcplusplus.Base.{
  ℕ, suc, ◌+◌, ◌%◌, true, false, List, [], ◌∷◌, Option, none, some, get_elem?, set, ltb, leb, ◌==◌,
  if◌then◌else◌, not, bit_and, add64, sub64, add32,
}
use hotpathcplusplus.Status.{
  StatusOr, value, error, already_exists, resource_exhausted, not_found, data_loss,
}
use hotpathcplusplus.Ring.Memory.{Memory, load, read_bytes}
use hotpathcplusplus.Ring.Types.{
  ReaderSlot, BroadcastReader, FrameHeader, SafeMessage, RingBuffer, max_readers, frame_header_size,
}

-- the slot that a registration writes
abbrev pub claimed_slot : ReaderSlot → ℕ → ℕ → ℕ → ReaderSlot
claimed_slot s cursor pid now = record {
  active = true;
  cursor = cursor;
  heartbeat_ts = now;
  pid = pid;
  generation_id = add32 s.generation_id 1;
}

-- `++i`: the search goes on behind an active slot
unfoldable pub skip_slot :
    ReaderSlot → Option (ℕ × ℕ × List ReaderSlot) → Option (ℕ × ℕ × List ReaderSlot)
skip_slot s none = none
skip_slot s (some (i, gen, ss)) = some (suc i, gen, s ∷ ss)

-- the first slot that is not active: its index, its new generation and the new roster
unfoldable pub claim_slot : ℕ → ℕ → ℕ → List ReaderSlot → Option (ℕ × ℕ × List ReaderSlot)
unfolding skip_slot
claim_slot cursor pid now [] = none
claim_slot cursor pid now (s ∷ ss) =
    if s.active
    then skip_slot s (claim_slot cursor pid now ss)
    else some (0, add32 s.generation_id 1, claimed_slot s cursor pid now ∷ ss)

abbrev pub with_readers : RingBuffer → List ReaderSlot → RingBuffer
with_readers r readers = record r { header = record r.header { readers = readers } }

unfoldable pub register_reader :
    RingBuffer → BroadcastReader → ℕ → ℕ → StatusOr (Unit {0}) × RingBuffer × BroadcastReader
unfolding claim_slot
register_reader r reader pid now = elim reader.slot_index [
  | some i ↦ (error already_exists, r, reader)
  | none ↦ elim (claim_slot reader.cursor pid now r.header.readers) [
    | none ↦ (error resource_exhausted, r, reader)
    | some (i, gen, readers) ↦ (
      value tt,
      with_readers r readers,
      record reader { slot_index = some i; generation_id = gen },
    )
  ]
]

-- `slot >= 0 && slot < kMaxReaders`; a slot below the bound is in the roster
unfoldable pub unregister_reader : RingBuffer → BroadcastReader → RingBuffer × BroadcastReader
unregister_reader r reader = elim reader.slot_index [
  | none ↦ (r, reader)
  | some i ↦
      if ltb i max_readers
      then elim (get_elem? r.header.readers i) [
        | none ↦ (r, record reader { slot_index = none })
        | some s ↦ (
          with_readers r (set r.header.readers i (record s { active = false })),
          record reader { slot_index = none },
        )
      ]
      else (r, reader)
]

-- Advance(reader, total_frame_length). An index outside the roster is undefined in C++; here it
-- moves the reader alone.
unfoldable pub advance : RingBuffer → BroadcastReader → ℕ → ℕ → RingBuffer × BroadcastReader
advance r reader n now =
    let new_cursor = add64 reader.cursor n in
    let moved : BroadcastReader = record reader { cursor = new_cursor } in
    elim reader.slot_index [
      | none ↦ (r, moved)
      | some i ↦ elim (get_elem? r.header.readers i) [
        | none ↦ (r, moved)
        | some s ↦
            if s.generation_id == reader.generation_id
            then (
              with_readers r
                  (set r.header.readers i (record s { cursor = new_cursor; heartbeat_ts = now })),
              moved,
            )
            else (r, record moved { slot_index = none })
      ]
    ]

unfoldable pub frame_header : ℕ → Memory → ℕ → FrameHeader
frame_header capacity m offset = record {
  length = load capacity m (offset + 4) 4;
  type = load capacity m (offset + 8) 4;
  timestamp = load capacity m (offset + 16) 8;
}

-- PollZeroCopy: the header and the span, as its address and length
unfoldable pub poll_zero_copy : RingBuffer → BroadcastReader → StatusOr (FrameHeader × ℕ × ℕ)
unfolding frame_header
poll_zero_copy r reader =
    let offset = reader.cursor % r.capacity in
    let h = frame_header r.capacity r.data_buffer offset in
    if leb r.header.commit_cursor reader.cursor
    then error not_found
    else if ltb r.capacity (sub64 r.header.producer_cursor reader.cursor)
    then error resource_exhausted
    else if ltb r.capacity h.length
    then error data_loss
    else value (h, offset + frame_header_size, h.length)

-- What one round of PollCopy's loop sees: the producer cursor, the bytes up to the end of the copy,
-- and the bytes at the second look at the version. The copy is not atomic, so `seen` may mix bytes
-- of several moments.
pub record Attempt : Type 0 where
  pub prod : ℕ
  pub seen : Memory
  pub after : Memory

-- The loop of PollCopy over the rounds given; `none` if it has not left the loop after the last.
unfoldable pub copy_loop : ℕ → ℕ → List Attempt → Option (StatusOr (FrameHeader × SafeMessage))
unfolding frame_header
copy_loop capacity current [] = none
copy_loop capacity current (a ∷ rounds) =
    let offset = current % capacity in
    let version_before = load capacity a.seen offset 4 in
    let h = frame_header capacity a.seen offset in
    let message : SafeMessage = record {
      type = h.type;
      timestamp = h.timestamp;
      payload = read_bytes capacity a.seen (offset + frame_header_size) h.length;
    } in
    let again = copy_loop capacity current rounds in
    if ltb capacity (sub64 a.prod current)
    then some (error resource_exhausted)
    else if not (bit_and version_before 1 == 0)
    then again
    else if ltb capacity h.length
    then some (error data_loss)
    else if version_before == load capacity a.after offset 4
    then some (value (h, message))
    else again

unfoldable pub poll_copy :
    RingBuffer → BroadcastReader → List Attempt → Option (StatusOr (FrameHeader × SafeMessage))
poll_copy r reader rounds =
    if leb r.header.commit_cursor reader.cursor
    then some (error not_found)
    else copy_loop r.capacity reader.cursor rounds

unfoldable pub get_latest_cursor : RingBuffer → ℕ
get_latest_cursor r = r.header.commit_cursor
