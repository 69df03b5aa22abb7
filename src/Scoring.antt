-- ===== src/Scoring.antt =====
-- How risky a change is, and how well a run went (app/workflow_runtime/risk_engine.py,
-- app/workflow_runtime/stability_score.py).
pub mod Levels
pub mod Risk
pub mod Pauses
pub mod Stability
pub mod Bounds
mod Examples
