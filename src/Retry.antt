-- ===== src/Retry.antt =====
-- The guard that stops a run from retrying for ever (app/workflow_runtime/retry_guard.py).
pub mod Budget
pub mod Records
pub mod Guard
pub mod Decide
pub mod Stops
pub mod Repeats
pub mod Progress
pub mod Improves
pub mod Steady
mod Examples
mod Repairs
