-- ===== src/Checkpoint.antt =====
-- The checkpoints of completed tasks (app/workflow_runtime/task_checkpoints.py).
pub mod Archives
pub mod Restore
pub mod Extracts
pub mod Restoring
mod Examples
