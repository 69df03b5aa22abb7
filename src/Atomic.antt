-- ===== src/Atomic.antt =====
-- The delivery of a run as a whole (app/workflow_runtime/atomic_delivery.py,
-- app/workflow_runtime/autopilot_policy.py).
pub mod Policy
pub mod Requests
pub mod Deliver
pub mod Commit
pub mod Answers
pub mod AllOrNothing
pub mod Whole
pub mod Installs
pub mod Allowed
mod Examples
