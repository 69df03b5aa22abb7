-- ===== src/Lease.antt =====
-- Run leases with fencing tokens, and step attempts (app/workflow_runtime/run_lease.py).
pub mod Lifetimes
pub mod Tokens
pub mod Calls
pub mod Fencing
pub mod Holding
pub mod Attempts
pub mod Once
mod Examples
