-- ===== src/Pool.antt =====
-- The thread pool and the parallel traversal of parallel-graph/src.
pub mod Code
pub mod OsList
pub mod Tasks
pub mod Queue
pub mod Destroy
pub mod Refine
pub mod Startup
pub mod LostWakeup
pub mod Awake
pub mod Progress
pub mod Weights
pub mod Invariant
pub mod Steps
pub mod Marks
pub mod Scan
pub mod Run
pub mod Result
pub mod Measure
pub mod Tests
pub mod QueueTests
