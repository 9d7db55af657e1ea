-- ===== src/Locks.antt =====
-- The locks of common/locks_under_the_hood/locks_under_the_hood.h: the three-state mutexes, and the
-- spinlocks there and in common/mesi_coherency/mesi_coherency.h, and a program that runs them.
pub mod Futex
pub mod Exclusion
pub mod Wakeup
pub mod Spin
pub mod Machine
pub mod Live
pub mod Trial
pub mod Tally
pub mod Outcome
