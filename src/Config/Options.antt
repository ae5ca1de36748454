-- ===== src/Config/Options.antt =====
-- Plugin defaults and task options: `deep_merge_plugins`, `process_bool_arg` and
-- `determine_managed_mode` of cumulusci/core/utils.py.
pub mod Plugins
pub mod Managed
