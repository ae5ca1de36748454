-- ===== src/Config.antt =====
-- cumulusci/core/utils.py: configuration files as trees, their merging, and the clean-up of flow
-- steps that one file overrides in another.
pub mod Value
pub mod Merge
pub mod Steps
pub mod Layers
pub mod Options
mod Tests
