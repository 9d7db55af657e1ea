-- ===== src/Measurement.antt =====
-- common/measurement: the data sets of entropy_generator.h and the flush of measurement_harness.h.
pub mod Generator
pub mod Successors
pub mod Cycle
pub mod Flush
