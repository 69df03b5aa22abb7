-- ===== src/Delivery.antt =====
-- The crash-recoverable delivery of a run's files (app/workflow_runtime/delivery_journal.py).
pub mod Files
pub mod Journal
pub mod Apply
pub mod Rollback
pub mod Prepare
pub mod Keeps
pub mod Invariant
pub mod Forward
pub mod Recoverable
pub mod Ends
pub mod Changes
pub mod Progress
pub mod Restoring
pub mod Restores
pub mod Resumes
pub mod Placed
pub mod Backups
pub mod Prepared
pub mod Untouched
pub mod Skips
pub mod Examples
mod Remarked
pub mod FirstDelivery
