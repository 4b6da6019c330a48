-- ===== src/Adapter.antt =====
-- The nlboot adapter: adapter.py.
pub mod Handoff
pub mod Laws
pub mod Records
mod Tests
