-- ===== src/ControlPlane.antt =====
-- The control-plane planner: control_plane.py.
pub mod Planner
pub mod Plannable
pub mod Copied
pub mod Described
pub mod Command
mod Tests
