-- ===== src/Tasks.antt =====
-- The base classes of tasks: cumulusci/core/tasks.py.
pub mod Retry
pub mod Poll
pub mod Objects
mod Tests
