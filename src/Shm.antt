-- ===== src/Shm.antt =====
-- common/shared_memory/memory_map.h and .cc, and what common/shared_memory/broadcast_ring_buffer.cc
-- does with two such mappings in Create, Attach and Unlink.
pub mod Errno
pub mod Kernel
pub mod MemoryMap
pub mod Mirror
pub mod DoMap
pub mod Ownership
pub mod Acquire
pub mod CreateOrOpen
