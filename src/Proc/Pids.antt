-- ===== src/Proc/Pids.antt =====
-- The process identifiers of the table: handed out by allocproc, cleared by wait and thread_join.
pub mod Rules
pub mod Calls
pub mod Unique
pub mod Reachable
