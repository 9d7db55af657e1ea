-- ===== src/Ebr.antt =====
-- common/concurrency/ebr.h and ebr.cc: epoch-based reclamation.
pub mod Engine
pub mod Tasks
pub mod Collect
pub mod Safety
pub mod Blocks
pub mod Collectors
pub mod Retiring
pub mod Preserve
pub mod Alone
pub mod Drain
