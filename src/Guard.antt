-- ===== src/Guard.antt =====
-- minion/resource_guard: the service that keeps the bills of a task.
pub mod Limit
mod Tests
