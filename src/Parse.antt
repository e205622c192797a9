-- ===== src/Parse.antt =====
-- minion/planner/parse: the compiler from SQL to a query graph.
pub mod Literal
pub mod Tree
pub mod Visitor
pub mod Visit
pub mod Words
pub mod Denote
mod Tests
