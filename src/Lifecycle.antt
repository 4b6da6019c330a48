-- ===== src/Lifecycle.antt =====
-- The lifecycle promotion engine (src/sourceos_boot/lifecycle_state_machine.py).
pub mod Types
pub mod Engine
pub mod Rules
pub mod Gates
pub mod Complete
pub mod History
mod Tests
