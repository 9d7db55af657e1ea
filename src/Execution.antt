-- ===== src/Execution.antt =====
-- The summation pipelines of common/execution/execution_pipeline.h over 64-bit integers, and
-- the filters of common/execution/challenge.cc.
pub mod Pipeline
pub mod Floats
pub mod Unrolled
pub mod Filter
