-- ===== src/Osmem.antt =====
-- The allocator of mem-allocator/src/osmem.c.
pub mod Memory
pub mod Code
pub mod Realloc
pub mod Blocks
pub mod Returns
pub mod Unix
pub mod Chain
pub mod Coalesce
pub mod BestFit
pub mod Splice
pub mod Heap
pub mod Clear
pub mod Take
pub mod Append
pub mod Extend
pub mod Malloc
pub mod Obtained
pub mod Mapping
pub mod Overrun
pub mod Preallocate
pub mod Grow
pub mod Ready
pub mod Serve
pub mod Free
pub mod Dangling
pub mod Overlap
pub mod Resize
pub mod Tests
pub mod GrowthTests
