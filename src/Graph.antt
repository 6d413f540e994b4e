-- ===== src/Graph.antt =====
-- internal/graph: the repository of nodes and edges in memory.
pub mod Types
pub mod Any
pub mod Nodes
pub mod Edges
pub mod Repository
pub mod Maps
pub mod Search
pub mod Found
pub mod Kept
pub mod Memory
pub mod Upserts
pub mod Links
pub mod Removal
pub mod Tests
