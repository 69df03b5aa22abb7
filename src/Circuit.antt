-- ===== src/Circuit.antt =====
-- The circuit breaker of the model providers (app/services/model_circuit_breaker.py).
pub mod Breaker
pub mod Bounds
pub mod Probes
pub mod Keys
mod Examples
