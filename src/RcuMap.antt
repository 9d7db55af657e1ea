-- ===== src/RcuMap.antt =====
-- common/concurrency/rcu_hash_map.h: the hash map whose writers replace nodes and retire them.
pub mod Table
pub mod Walks
pub mod View
pub mod Rehash
pub mod Growth
