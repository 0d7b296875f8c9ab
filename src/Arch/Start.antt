-- ===== src/Arch/Start.antt =====
-- system/arch/i686/kerninit.c, and kern_initmem of system/kern/init_main.c: the memory that the physical
-- allocator starts with. `memdata` of the boot loader is its flags and the numbers of kilobytes below and
-- above the first megabyte.
pub mod Pages
mod Tests
use rkernel.Base.{[], ◌∷◌, ◌==◌, ◌-◌, ◌^◌, ◌%◌, ltb, ◌/◌, ◌+◌, ◌*◌, if◌then◌else◌, ℕ, List}
use rkernel.Physmem.Alloc.{Bmaset, Range}
use rkernel.Physmem.Boot.{Booted, vm_phys_bm_bootinit}

-- `& ~0xfff`
abbrev pub round_down : ℕ → ℕ
round_down a = a / 2 ^ 12 * 2 ^ 12

-- The first page behind the kernel, by the address at which the kernel ends.
abbrev pub end_of_kernel : ℕ → ℕ
end_of_kernel kernel_end =
    round_down (((kernel_end + 2 ^ 32 - 0xC0000000) % 2 ^ 32 + 0xFFF) % 2 ^ 32)

abbrev pub low_memory : ℕ → Range
low_memory lower = record { begin = 0; end = round_down (lower * 2 ^ 10 % 2 ^ 32) }

abbrev pub high_memory : ℕ → ℕ → Range
high_memory kernel_end upper = record {
  begin = if ltb 0x100000 (end_of_kernel kernel_end) then end_of_kernel kernel_end else 0xC00000;
  end = round_down ((upper * 2 ^ 10 % 2 ^ 32 + 0x100000) % 2 ^ 32);
}

-- The ranges of the slice that `_i686_init` sets up.
unfoldable pub memory_ranges : ℕ → ℕ → ℕ → ℕ → List Range
memory_ranges kernel_end flags lower upper =
    if flags % 2 == 1 then low_memory lower ∷ high_memory kernel_end upper ∷ [] else []

-- `ks_memory_allocator`; what `vm_phys_bm_bootinit` returns is not looked at.
unfoldable pub kern_initmem : List ℕ → List Range → Bmaset
kern_initmem block ranges = (vm_phys_bm_bootinit block ranges).bmas
