-- ===== src/Engine.antt =====
-- internal/engine/engine.go, a part to a child module.
pub mod Defs
pub mod Signals
pub mod Completion
pub mod Schedule
pub mod Counts
pub mod Steps
pub mod Outcome
pub mod Safety
