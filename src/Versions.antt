-- ===== src/Versions.antt =====
-- The versions of packages: cumulusci/core/versions.py.
pub mod Number
pub mod Match
pub mod Parse
pub mod Spelled
pub mod RoundTrip
pub mod Replaced
pub mod Tags
mod Tests
