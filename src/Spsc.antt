-- ===== src/Spsc.antt =====
-- common/store_buffer/store_buffer.h: the single-producer, single-consumer ring.
pub mod Ring
pub mod Window
pub mod Refine
pub mod Threads
pub mod Moves
pub mod Fifo
