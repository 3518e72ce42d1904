-- ===== src/Backend.antt =====
-- backend: the event loops, and the conditions of a status.
pub mod Event
pub mod AppLoop
pub mod Condition
pub mod WorkspaceLoop
pub mod ControllerLoop
pub mod ResourceLoop
