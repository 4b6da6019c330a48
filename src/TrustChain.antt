-- ===== src/TrustChain.antt =====
-- The validator of Trust Chain boot evidence: validate_trust_chain_boot_verification.py.
pub mod Schema
pub mod Conforms
pub mod Document
pub mod Evidence
pub mod Rules
pub mod Decided
mod Tests
