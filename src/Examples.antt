-- ===== src/Examples.antt =====
-- The theorems at concrete states.
mod Board
mod Simulation
mod Main
mod Counts
mod Handover
mod Tasks
mod Desk
mod Async
mod Sync
mod Guarded
mod Change
mod Mem
mod Slab
mod Blocks
