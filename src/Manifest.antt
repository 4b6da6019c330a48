-- ===== src/Manifest.antt =====
-- The ratchet on the manifest's declarations: tools/validate_manifest_declarations.py.
pub mod Ratchet
pub mod Holds
mod Tests
