-- ===== src/Target.antt =====
-- From which step a run goes on after a failure (app/workflow_runtime/retry_policy.py).
pub mod Records
pub mod Choose
pub mod Exists
pub mod Found
pub mod Repair
mod Examples
