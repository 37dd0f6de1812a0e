-- ===== src/Graph.antt =====
-- The graph of parallel-graph/src and its serial traversal.
pub mod Code
pub mod Update
pub mod Reach
pub mod Count
pub mod Serial
pub mod Build
pub mod Tests
