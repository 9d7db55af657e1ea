-- ===== src/Examples.antt =====
-- Concrete runs of the models: each applies a theorem at an input where its conditions hold.
mod Rings
mod Maps
mod Reclaim
mod Threads
mod Words
mod Networks
mod Litmus
mod TinyKernel
mod Mappings
mod Queues
mod Arenas
mod Registrations
mod Trials
