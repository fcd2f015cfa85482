-- ===== src/Runner.antt =====
-- internal/engine/task_runner.go: how a worker runs one task: its condition, the items of its loop, the
-- runs of its module with their retries, and what it registers in the state store.
pub mod Conditions
pub mod Items
pub mod Instance
pub mod Task
