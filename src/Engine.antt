-- ===== src/Engine.antt =====
-- The run and step state machine (app/workflow_engine/state_machine.py).
pub mod Tables
pub mod Edges
pub mod History
pub mod Walks
mod Examples
