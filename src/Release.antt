-- ===== src/Release.antt =====
-- Names of release branches and the identifiers in them: cumulusci/utils/release_branch.py and
-- cumulusci/utils/git.py.
pub mod Pattern
pub mod Identifier
pub mod Naming
pub mod Previous
pub mod Branch
pub mod Hosted
mod Tests
