-- ===== src/Dag.antt =====
-- internal/engine/dag.go, a part to a child module.
pub mod Defs
pub mod Cycle
pub mod Build
