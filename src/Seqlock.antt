-- ===== src/Seqlock.antt =====
-- Sequence locks: common/concurrency/seqlock.h and SeqlockRouteCache of
-- common/locks_under_the_hood/locks_under_the_hood.h, and the one of
-- episodes/high_performance/10_locks_under_the_hood/challenge.cc.
pub mod Protocol
pub mod RouteCache
pub mod MutexCaches
pub mod Trial
pub mod Sound
pub mod Writes
pub mod TearFree
