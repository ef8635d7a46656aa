-- ===== src/Mem.antt =====
-- The memory benchmarks, src/mem.
pub mod Heap
pub mod Blocks
pub mod Slab
pub mod Requests
pub mod HeapAdapters
pub mod BlockCalls
