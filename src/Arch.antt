-- ===== src/Arch.antt =====
-- The i686, system/arch/i686.
pub mod Window
pub mod Segments
pub mod Hal
pub mod Irq
pub mod Mmu
pub mod Mp
pub mod Start
