-- ===== src/Kernel.antt =====
-- The kernel data of proc.h and proc.c, and the control flow of a system call.
pub mod State
pub mod Ops
pub mod Run
pub mod Ends
pub mod Returns
