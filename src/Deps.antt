-- ===== src/Deps.antt =====
-- Dependencies on other repositories: their resolution to a ref and a package, their flattening to
-- what they need in turn, and the loop that does both until all are static.
-- cumulusci/core/dependencies/base.py and cumulusci/core/dependencies/resolvers.py.
pub mod Model
pub mod Resolvers
pub mod Pins
pub mod Flatten
pub mod Static
mod Tests
