-- ===== src/Mesi.antt =====
-- The coherency-friendly structures of common/mesi_coherency/mesi_coherency.h, and the state that
-- common/locks_under_the_hood/locks_under_the_hood.h guards with its locks,
-- with the trial of its sharded map.
pub mod Ids
pub mod Unique
pub mod Magazine
pub mod Counter
pub mod Ledger
pub mod Sharded
pub mod ShardedTrial
