-- ===== src/Store.antt =====
-- The run and step stores (app/stores/run_store.py, app/stores/step_store.py).
pub mod Records
pub mod Runs
pub mod Steps
pub mod Loops
pub mod Legal
pub mod Kept
pub mod Operations
pub mod Versions
mod Examples
