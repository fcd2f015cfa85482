-- ===== src/Engine/Safety.antt =====
-- A task starts only after its dependencies, in every reachable state of a run.
pub mod Unmet
pub mod Counted
pub mod Shape
pub mod Stage
pub mod Inv
pub mod Dispatch
pub mod Complete
pub mod Run
pub mod Start
pub mod Frames
pub mod Kept
pub mod Idle
pub mod Promises
pub mod Launch
