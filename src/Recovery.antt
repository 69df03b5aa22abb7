-- ===== src/Recovery.antt =====
-- Runs whose process is gone, and the lock of a project (app/workflow_runtime/run_lifecycle.py,
-- app/runtime_modules/run_owner.py, app/stores/lock_store.py).
pub mod Owners
pub mod Runs
pub mod Stores
pub mod Resume
pub mod Stale
pub mod Locks
pub mod Guards
pub mod Held
pub mod Examples
