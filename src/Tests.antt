-- ===== src/Tests.antt =====
-- Runs of the definitions on concrete inputs.
pub mod Samples
pub mod Graphs
pub mod Runs
pub mod Retries
pub mod Joins
pub mod Tasks
pub mod Topologies
pub mod Secret
pub mod Stores
pub mod Reports
pub mod Parameters
pub mod Streams
pub mod Playbooks
pub mod Producers
pub mod Loadings
