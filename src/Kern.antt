-- ===== src/Kern.antt =====
-- The kernel proper, system/kern.
pub mod Ring
pub mod Zalloc
pub mod Wait
pub mod Lock
pub mod Sched
pub mod Stacks
pub mod Threads
