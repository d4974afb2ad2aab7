-- ===== src/Algo.antt =====
-- include/scea/algo: the algorithms that run on a graph between two batches of updates.
pub mod Bc
pub mod Bfs
pub mod Triangles
mod Tests
