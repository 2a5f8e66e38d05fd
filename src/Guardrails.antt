-- ===== src/Guardrails.antt =====
-- Guardrails, src/guardrails/mod.rs: `LogRotator` and `PortCollisionGuard`.
pub mod Collisions
pub mod Rotation
pub mod Sizes
pub mod Reaper
mod Tests
