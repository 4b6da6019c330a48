-- ===== src/Cli.antt =====
-- The commands of cli.py that update the two slots and plan a boot.
pub mod Probe
pub mod Events
pub mod AbUpdate
pub mod Loaded
pub mod Runs
pub mod Drills
mod Tests
