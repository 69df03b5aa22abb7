-- ===== src/Failure.antt =====
-- The classes of failures (app/workflow_runtime/failure_classifier.py).
pub mod Codes
pub mod Classes
pub mod Messages
pub mod Markers
pub mod Classify
pub mod Runs
pub mod Named
