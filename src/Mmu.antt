-- ===== src/Mmu.antt =====
-- common/syscalls_traps_and_mmu/syscalls_traps_and_mmu.h: the page writer, the prefaulted pool and the
-- order book arena.
pub mod Paging
pub mod Touch
pub mod Arena
pub mod Pool
