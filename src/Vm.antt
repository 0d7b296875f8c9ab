-- ===== src/Vm.antt =====
-- The virtual memory system, system/vm.
pub mod Tree
pub mod Region
pub mod Pager
pub mod Kmem
pub mod Domain
pub mod Init
