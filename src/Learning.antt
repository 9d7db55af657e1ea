-- ===== src/Learning.antt =====
-- The numeric kernels of episode 02, "How AI learns" (episodes/ai/02_how_ai_learns/benchmark.cc).
pub mod Gemm
pub mod Tiles
pub mod Mlp
pub mod Backprop
pub mod Nudge
pub mod Differences
pub mod Inference
