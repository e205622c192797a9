-- ===== src/Query.antt =====
-- minion/planner/query: the query graph and the rewrite rules on it.
pub mod Ops
pub mod Graph
pub mod Rules
pub mod Mapping
pub mod Df
pub mod Constants
pub mod Hashes
pub mod Visited
mod Tests
mod Examples
