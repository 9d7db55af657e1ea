-- ===== src/Events.antt =====
-- The event hierarchy of common/cpp_vs_java_jit beside its flat counterpart, its order slab, and
-- the loops of its challenge.
pub mod Flat
pub mod Slab
pub mod Layouts
pub mod Battle
