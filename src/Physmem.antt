-- ===== src/Physmem.antt =====
-- system/physmem: the bitmap allocator for pages of physical memory.
pub mod Alloc
pub mod Boot
mod Tests
