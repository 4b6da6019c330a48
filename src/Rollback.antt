-- ===== src/Rollback.antt =====
-- The rollback path: asahi_boot_chain.py and rollback_executor.py.
pub mod Sort
pub mod Chain
pub mod Executor
pub mod Plans
pub mod Previous
pub mod Reports
pub mod Steps
pub mod Executions
mod Tests
