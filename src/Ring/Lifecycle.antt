-- ===== src/Ring/Lifecycle.antt =====
-- Create, Attach, Unlink and the two constructors and destructor of BroadcastRingBuffer
-- (common/shared_memory/broadcast_ring_buffer.cc): the two mappings of a ring. StrCat with a suffix
-- is a function on names, and what a new or an attached mapping contains is an argument.
use hotpathcplusplus.Base.{
  ℕ, ◌+◌, ◌*◌, Bool, true, false, not, Option, none, some, replicate, ltb, if◌then◌else◌,
}
use hotpathcplusplus.Status.{Code, StatusOr, value, error, data_loss}
use hotpathcplusplus.Shm.Kernel.{Kernel}
use hotpathcplusplus.Shm.MemoryMap.{MemoryMap, create, open_map, unlink, destroy}
use hotpathcplusplus.Ring.Memory.{Memory}
use hotpathcplusplus.Ring.Types.{BroadcastHeader, RingBuffer, empty_slot, no_reservation}

-- sizeof(BroadcastHeader): three cache lines, and two for each slot, whose fields and padding take
-- 67 bytes
abbrev pub header_size : ℕ
header_size = 3 * 64 + 16 * 128

-- The handle: its mappings, and the ring that its pointers show.
pub record BroadcastRingBuffer : Type 0 where
  pub metadata_map : MemoryMap
  pub data_map : MemoryMap
  pub ring : RingBuffer

-- BroadcastHeader(), and what Create stores after it
unfoldable pub init_header : ℕ → BroadcastHeader
init_header capacity = record {
  producer_cursor = 0;
  commit_cursor = 0;
  buffer_capacity = capacity;
  readers = replicate 16 empty_slot;
}

-- the constructor
unfoldable pub new_buffer :
    MemoryMap → MemoryMap → BroadcastHeader → Memory → Bool → ℕ → BroadcastRingBuffer
new_buffer metadata_map data_map header data_buffer is_producer evict_timeout_ns = record {
  metadata_map = metadata_map;
  data_map = data_map;
  ring = record {
    header = header;
    data_buffer = data_buffer;
    capacity = data_map.size;
    is_producer = is_producer;
    evict_timeout_ns = evict_timeout_ns;
    reservation = no_reservation;
    cached_min_cursor = 0;
  };
}

abbrev pub max_capacity : ℕ
max_capacity = 1024 * 1024 * 1024

-- the defaulted destructor: members in reverse order
unfoldable pub destroy_ring : {S : Type 0} → Kernel S → BroadcastRingBuffer → S → S
unfolding destroy
destroy_ring os b s = destroy os b.metadata_map (destroy os b.data_map s)

module _ {S : Type 0} (os : Kernel S) (meta_name data_name : ℕ → ℕ)
    (header_of : MemoryMap → S → BroadcastHeader) (bytes_of : MemoryMap → S → Memory) where
  -- Create once the metadata is there
  unfoldable pub create_data :
      ℕ → ℕ → ℕ → MemoryMap → StatusOr MemoryMap × S → StatusOr BroadcastRingBuffer × S
  unfolding unlink destroy
  create_data name capacity timeout meta_map (error c, s) =
      (error c, destroy os meta_map (unlink os (meta_name name) s).1)
  create_data name capacity timeout meta_map (value data_map, s) = (
    value (new_buffer meta_map data_map (init_header capacity) (bytes_of data_map s) true timeout),
    s,
  )

  unfoldable pub create_meta : ℕ → ℕ → ℕ → StatusOr MemoryMap × S → StatusOr BroadcastRingBuffer × S
  unfolding create_data create
  create_meta name capacity timeout (error c, s) = (error c, s)
  create_meta name capacity timeout (value meta_map, s) =
      create_data name capacity timeout meta_map (create os (data_name name) capacity true s)

  unfoldable pub create_ring : ℕ → ℕ → ℕ → S → StatusOr BroadcastRingBuffer × S
  unfolding create_meta create
  create_ring name capacity_bytes evict_timeout_ns s =
      create_meta name capacity_bytes evict_timeout_ns
        (create os (meta_name name) header_size false s)

  -- Attach once the data segment has been tried
  unfoldable pub attach_data :
      Bool → MemoryMap → StatusOr MemoryMap × S → StatusOr BroadcastRingBuffer × S
  unfolding destroy
  attach_data writable meta_map (error c, s) = (error c, destroy os meta_map s)
  attach_data writable meta_map (value data_map, s) = (
    value (new_buffer meta_map data_map (header_of meta_map s) (bytes_of data_map s) writable 0),
    s,
  )

  unfoldable pub attach_meta : ℕ → Bool → StatusOr MemoryMap × S → StatusOr BroadcastRingBuffer × S
  unfolding attach_data open_map destroy
  attach_meta name writable (error c, s) = (error c, s)
  attach_meta name writable (value meta_map, s) =
      let capacity = (header_of meta_map s).buffer_capacity in
      if ltb max_capacity capacity
      then (error data_loss, destroy os meta_map s)
      else attach_data writable meta_map
          (open_map os (data_name name) capacity (not writable) true s)

  unfoldable pub attach_ring : ℕ → Bool → S → StatusOr BroadcastRingBuffer × S
  unfolding attach_meta open_map
  attach_ring name writable s =
      attach_meta name writable (open_map os (meta_name name) header_size false false s)

  -- the first of the two statuses that is an error
  unfoldable pub first_error : Option Code → Option Code → Option Code
  first_error none s2 = s2
  first_error (some c) s2 = some c

  unfoldable pub unlink_ring : ℕ → S → Option Code × S
  unfolding unlink first_error
  unlink_ring name s =
      let (s1, t1) = unlink os (meta_name name) s in
      let (s2, t2) = unlink os (data_name name) t1 in (first_error s1 s2, t2)
