-- ===== src/Traverse.antt =====
-- internal/engine/traverse: the shortest-path engine.
pub mod Sink
pub mod Scratch
pub mod Adjacency
pub mod Samples
pub mod Budget
pub mod Machine
pub mod Bfs
pub mod Enumerate
pub mod Pair
pub mod Query
pub mod Strategy
