-- ===== src/Proc/Locking.antt =====
-- Lock discipline of proc.c: how each system call leaves `ptable.lock` and the interrupt depth.
pub mod Rules
pub mod Table
pub mod Calls
pub mod Ending
