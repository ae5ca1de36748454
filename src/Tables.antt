-- ===== src/Tables.antt =====
-- The order of tables in a generated mapping:
-- cumulusci/tasks/bulkdata/generate_mapping_utils/dependency_map.py.
pub mod Sort
pub mod Referenced
mod Tests
