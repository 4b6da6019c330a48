-- ===== src/ReleaseSet.antt =====
-- The validator of BootReleaseSet documents: validate_boot_release_set.py.
pub mod Patterns
pub mod Validator
pub mod Digests
pub mod Checks
pub mod Parts
pub mod Accepted
pub mod Command
mod Tests
