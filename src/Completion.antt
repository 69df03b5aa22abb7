-- ===== src/Completion.antt =====
-- The gate before a run is done (app/workflow_runtime/completion_gate.py).
pub mod Records
pub mod Gate
pub mod Checks
pub mod Passes
mod Examples
