-- ===== src/Proc.antt =====
-- proc.c: the process table, the scheduler, and the threads that share the data of a process.
pub mod Alloc
pub mod Sleep
pub mod Fork
pub mod Exit
pub mod Kill
pub mod Thread
pub mod System
pub mod Entry
pub mod Locking
pub mod Pids
