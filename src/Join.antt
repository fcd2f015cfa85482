-- ===== src/Join.antt =====
-- modules/stream/join/join.go: records of several streams are joined by their keys. The records of the
-- build streams are kept in a map by key, those of the probe stream are looked up in it, and what found
-- no partner follows where the type of the join asks for it.
pub mod Keys
pub mod Defs
pub mod Settings
pub mod Combine
pub mod Build
pub mod Probe
pub mod Perform
