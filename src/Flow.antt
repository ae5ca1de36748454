-- ===== src/Flow.antt =====
-- cumulusci/core/flowrunner.py: flows of steps, their unfolding into tasks, and their execution.
pub mod Spec
pub mod Sort
pub mod Steps
pub mod Plan
pub mod Loops
pub mod Run
pub mod Preflight
mod Tests
