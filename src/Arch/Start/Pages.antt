-- ===== src/Arch/Start/Pages.antt =====
-- system/arch/i686/kerninit.c: the pages that are free once the allocator is set up.
use rkernel.Base.{
  ltb→ge, ltb, ◌==◌, ◌-◌, length, All-append, [], inr, inl, zero, ◌⊎◌, ◌^◌, suc, Bool-cases, ◌≤◌,
  ◌≡◌, ◌∷◌, ◌*◌, ◌<◌, ◌+◌, ◌%◌, List, ℕ, All, arith,
}
use rkernel.Physmem.Alloc.{mul_pagesize, Bmalloc, page_of, Range}
use rkernel.Physmem.Alloc.Free.{free_pages}
use rkernel.Physmem.Boot.{block_words, pages_in, vm_phys_bm_bootinit}
use rkernel.Physmem.Boot.Ranges.{boot_loop-ranges}
use rkernel.Physmem.Boot.Laws.{all_pages, pages_from, Short, vm_phys_bm_bootinit-Short}
use rkernel.Arch.Start.{end_of_kernel, high_memory, kern_initmem, low_memory, memory_ranges}

-- Pages of memory that is there and not the kernel's, which lies from the first megabyte on.
abbrev pub Usable : ℕ → ℕ → ℕ → ℕ → Type 0
Usable kernel_end lower upper page =
    (page % 4096 ≡ 0)
    × (((page + 4096 ≤ lower * 1024) × (page + 4096 ≤ 0x100000))
        ⊎ ((kernel_end ≤ page + 0xC0000000) × (page + 4096 ≤ upper * 1024 + 0x100000)))

-- A range whose whole pages are usable.
abbrev UsableRange : ℕ → ℕ → ℕ → Range → Type 0
UsableRange kernel_end lower upper r =
    (i : ℕ) → i < pages_in r → Usable kernel_end lower upper ((mul_pagesize i + r.begin) % 2 ^ 32)

low-usable :
    (kernel_end lower upper : ℕ)
    → lower ≤ 1024
    → UsableRange kernel_end lower upper (low_memory lower)
low-usable kernel_end lower upper small i few = (omega arith, inl (omega arith, omega arith))

-- The whole pages of a range lie in it.
page_in_range :
    (r : Range) (i : ℕ)
    → r.begin ≤ r.end
    → r.end < 2 ^ 32
    → i < pages_in r
    → ((mul_pagesize i + r.begin) % 2 ^ 32 ≡ i * 4096 + r.begin)
      × (i * 4096 + r.begin + 4096 ≤ r.end)
page_in_range r i order small few = (omega arith, omega arith)

-- The high memory begins with a page behind the kernel.
high-begin :
    (kernel_end upper : ℕ)
    → 0xC0000000 ≤ kernel_end
    → kernel_end < 2 ^ 32 - 4096
    → ((high_memory kernel_end upper).begin % 4096 ≡ 0)
      × (kernel_end ≤ (high_memory kernel_end upper).begin + 0xC0000000)
high-begin kernel_end upper above below =
    elim (Bool-cases (ltb 0x100000 (end_of_kernel kernel_end))) [
      | inl high ↦ rw high (omega arith, omega arith)
      | inr low ↦
          let small : end_of_kernel kernel_end ≤ 0x100000 =
            ltb→ge 0x100000 (end_of_kernel kernel_end) low in
          rw low (omega arith, omega arith)
    ]

high-end :
    (kernel_end upper : ℕ)
    → upper < 2 ^ 22 - 1024
    → ((high_memory kernel_end upper).end ≤ upper * 1024 + 0x100000)
      × ((high_memory kernel_end upper).end < 2 ^ 32)
high-end kernel_end upper small = (omega arith, omega arith)

Usable-page :
    (kernel_end lower upper begin end i page : ℕ)
    → page ≡ i * 4096 + begin
    → begin % 4096 ≡ 0
    → kernel_end ≤ begin + 0xC0000000
    → i * 4096 + begin + 4096 ≤ end
    → end ≤ upper * 1024 + 0x100000
    → Usable kernel_end lower upper page
Usable-page kernel_end lower upper begin end i page e aligned behind inside there =
    (omega arith, inr (omega arith, omega arith))

high-usable :
    (kernel_end lower upper : ℕ)
    → 0xC0000000 ≤ kernel_end
    → kernel_end < 2 ^ 32 - 4096
    → upper < 2 ^ 22 - 1024
    → (high_memory kernel_end upper).begin ≤ (high_memory kernel_end upper).end
    → UsableRange kernel_end lower upper (high_memory kernel_end upper)
high-usable kernel_end lower upper above below small room i few =
    let r = high_memory kernel_end upper in
    let (aligned, behind) = high-begin kernel_end upper above below in
    let (there, fits) = high-end kernel_end upper small in
    let (e, inside) = page_in_range r i room fits few in
    Usable-page kernel_end lower upper r.begin r.end i ((mul_pagesize i + r.begin) % 2 ^ 32) e
      aligned behind inside there

pages_from-Usable :
    (kernel_end lower upper : ℕ) (m : Bmalloc) (n i : ℕ)
    → UsableRange kernel_end lower upper m.range
    → i + n ≤ pages_in m.range
    → All (Usable kernel_end lower upper) (pages_from m n i)
unfolding pages_from page_of
pages_from-Usable kernel_end lower upper m zero i usable few = tt
pages_from-Usable kernel_end lower upper m (suc n) i usable few = (
  usable i (omega arith),
  pages_from-Usable kernel_end lower upper m n (i + 1) usable (omega arith),
)

all_pages-Usable :
    (kernel_end lower upper : ℕ) (maps : List Bmalloc)
    → All (λ (m : Bmalloc). UsableRange kernel_end lower upper m.range) maps
    → All Short maps
    → All (Usable kernel_end lower upper) (all_pages maps)
unfolding all_pages
all_pages-Usable kernel_end lower upper [] usable short = tt
all_pages-Usable kernel_end lower upper (m ∷ ms) usable short =
    All-append (Usable kernel_end lower upper) (pages_from m m.len 0) (all_pages ms)
      (pages_from-Usable kernel_end lower upper m m.len 0 usable.0 (omega (arith, short.0)))
      (all_pages-Usable kernel_end lower upper ms usable.1 short.1)

ranges-usable :
    (kernel_end flags lower upper : ℕ)
    → UsableRange kernel_end lower upper (low_memory lower)
    → UsableRange kernel_end lower upper (high_memory kernel_end upper)
    → All (UsableRange kernel_end lower upper) (memory_ranges kernel_end flags lower upper)
unfolding memory_ranges
ranges-usable kernel_end flags lower upper low high = elim (Bool-cases (flags % 2 == 1)) [
  | inl known ↦ rw known (low, (high, tt))
  | inr unknown ↦ rw unknown tt
]

-- Where the kernel ends in its part of the address space, the lower memory in the first megabyte,
-- and the upper memory behind the kernel and in 32 bits, every page that is free after the start
-- is a whole page of memory that is there, either below the first megabyte, where the kernel
-- begins, or behind its end.
pub kern_initmem-Usable :
    (block : List ℕ) (kernel_end flags lower upper : ℕ)
    → length block ≡ block_words
    → 0xC0000000 ≤ kernel_end
    → kernel_end < 2 ^ 32 - 4096
    → lower ≤ 1024
    → upper < 2 ^ 22 - 1024
    → (high_memory kernel_end upper).begin ≤ (high_memory kernel_end upper).end
    → All
        (Usable kernel_end lower upper)
        (free_pages (kern_initmem block (memory_ranges kernel_end flags lower upper)))
unfolding kern_initmem vm_phys_bm_bootinit
kern_initmem-Usable block kernel_end flags lower upper size above below l u room =
    let ranges = memory_ranges kernel_end flags lower upper in
    let (valid, free, short, few) = vm_phys_bm_bootinit-Short block ranges size in
    rw free (
      all_pages-Usable kernel_end lower upper (vm_phys_bm_bootinit block ranges).bmas.maps
        (boot_loop-ranges (UsableRange kernel_end lower upper) (length ranges) ranges 0 0 block []
          (ranges-usable kernel_end flags lower upper (low-usable kernel_end lower upper l)
            (high-usable kernel_end lower upper above below u room))
          tt)
        short)
