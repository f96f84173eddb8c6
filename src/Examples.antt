-- ===== src/Examples.antt =====
-- A small kernel, and runs of the operations on it.
mod Boot
mod Calls
mod Threads
mod Locks
mod Descriptors
pub mod Pages
mod Pipes
mod Texts
mod Args
mod Logs
mod Bakers
mod Spaces
mod Buffers
mod Lines
