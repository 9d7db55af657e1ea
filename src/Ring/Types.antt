-- ===== src/Ring/Types.antt =====
-- The structures of common/shared_memory/broadcast_ring_buffer.h: the reader roster, the shared
-- header, the frame header, the reader's own state and the handle that producer and consumer hold.
-- A slot index of -1 is `none`. Timestamps are nanoseconds since 1970, never negative.
use hotpathcplusplus.Base.{
  ℕ, ◌+◌, ◌*◌, ◌/◌, ◌%◌, ◌^◌, Bool, false, List, Option, none, add64, add32,
}
use hotpathcplusplus.Ring.Memory.{Memory}

abbrev pub max_readers : ℕ
max_readers = 16

-- sizeof(FrameHeader): version at 0, length at 4, type at 8, timestamp at 16
abbrev pub frame_header_size : ℕ
frame_header_size = 24

pub record ReaderSlot : Type 0 where
  pub active : Bool
  pub cursor : ℕ
  pub heartbeat_ts : ℕ
  pub pid : ℕ
  pub generation_id : ℕ

pub record BroadcastHeader : Type 0 where
  pub producer_cursor : ℕ
  pub commit_cursor : ℕ
  pub buffer_capacity : ℕ
  pub readers : List ReaderSlot

pub record BroadcastReader : Type 0 where
  pub cursor : ℕ
  pub slot_index : Option ℕ
  pub generation_id : ℕ

pub record FrameHeader : Type 0 where
  pub length : ℕ
  pub type : ℕ
  pub timestamp : ℕ

pub record SafeMessage : Type 0 where
  pub type : ℕ
  pub timestamp : ℕ
  pub payload : List ℕ

-- `(length + 7) & ~7` on uint32_t: the sum wraps, and the three low bits are cleared
unfoldable pub aligned_payload_size : ℕ → ℕ
aligned_payload_size length = add32 length 7 / 8 * 8

unfoldable pub total_frame_size : ℕ → ℕ
unfolding aligned_payload_size
total_frame_size length = (frame_header_size + aligned_payload_size length) % 2 ^ 32

pub record Reservation : Type 0 where
  pub claimed_cursor : ℕ
  pub start_offset : ℕ
  pub total_frame_size : ℕ

pub record RingBuffer : Type 0 where
  pub header : BroadcastHeader
  pub data_buffer : Memory
  pub capacity : ℕ
  pub is_producer : Bool
  pub evict_timeout_ns : ℕ
  pub reservation : Reservation
  pub cached_min_cursor : ℕ

abbrev pub empty_slot : ReaderSlot
empty_slot = record { active = false; cursor = 0; heartbeat_ts = 0; pid = 0; generation_id = 0 }

abbrev pub no_reservation : Reservation
no_reservation = record { claimed_cursor = 0; start_offset = 0; total_frame_size = 0 }

-- the explicit BroadcastReader(start_cursor)
unfoldable pub new_reader : ℕ → BroadcastReader
new_reader start = record { cursor = start; slot_index = none; generation_id = 0 }

-- BroadcastReader::Advance(const FrameHeader&)
unfoldable pub advance_past : BroadcastReader → FrameHeader → BroadcastReader
unfolding total_frame_size
advance_past reader h = record reader { cursor = add64 reader.cursor (total_frame_size h.length) }
