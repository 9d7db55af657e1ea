-- ===== src/StoreBuffers.antt =====
-- The store buffer challenge (common/store_buffer/challenge.cc): the store-load litmus test on a
-- machine with store buffers, and the hand-off of messages between a producer and a consumer.
pub mod Litmus
pub mod Order
pub mod Handoff
pub mod Pending
pub mod Delivery
pub mod Checksum
pub mod Completion
