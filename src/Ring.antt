-- ===== src/Ring.antt =====
-- common/shared_memory: the single-producer, multi-consumer broadcast ring buffer.
pub mod Memory
pub mod Types
pub mod Producer
pub mod Consumer
pub mod Words
pub mod Log
pub mod Publish
pub mod Refine
pub mod Backpressure
pub mod Roster
pub mod Lifecycle
pub mod Holdings
pub mod Drain
pub mod Registration
pub mod Generations
pub mod Displaced
pub mod Progress
pub mod Batch
pub mod Bounds
