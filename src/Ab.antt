-- ===== src/Ab.antt =====
-- The A/B dual-slot update machine (src/sourceos_boot/ab_update_machine.py).
pub mod Types
pub mod Table
pub mod Machine
pub mod Checks
pub mod Events
pub mod Invariant
pub mod Admission
pub mod Effects
pub mod Keeps
pub mod Behaviour
pub mod Opening
pub mod Commands
pub mod Steps
pub mod Progress
pub mod Watchdog
pub mod Replays
pub mod Guarantees
pub mod Endings
pub mod Checked
pub mod Widths
pub mod Bounds
pub mod Construct
pub mod Urn
pub mod Documents
pub mod Renderings
pub mod Restart
mod Tests
