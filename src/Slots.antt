-- ===== src/Slots.antt =====
-- How many calls of a provider run at once (app/core/provider_slots.py).
pub mod Pool
pub mod Runs
pub mod Capped
pub mod Overrun
mod Examples
