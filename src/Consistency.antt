-- ===== src/Consistency.antt =====
-- The consistency of runs with their workspaces (app/workflow_runtime/run_consistency.py).
pub mod Issues
pub mod Checks
pub mod Severe
pub mod Passes
pub mod Stores
mod Examples
