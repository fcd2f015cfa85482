-- ===== src/Modules.antt =====
-- The modules that the program registers, other than stream:join.
pub mod FromList
