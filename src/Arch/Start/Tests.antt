-- ===== src/Arch/Start/Tests.antt =====
-- system/arch/i686/kerninit.c: a machine with 640 KB below and 7 MB above the first megabyte, and a kernel
-- that ends behind its third.
use rkernel.Base.{replicate, arith, All, refl}
use rkernel.Physmem.Alloc.Free.{free_pages}
use rkernel.Arch.Start.{kern_initmem, memory_ranges}
use rkernel.Arch.Start.Pages.{kern_initmem-Usable, Usable}

kern_initmem-Usable_example :
    All
      (Usable 0xC0312345 639 7168)
      (free_pages (kern_initmem (replicate 4096 7) (memory_ranges 0xC0312345 1 639 7168)))
kern_initmem-Usable_example =
    kern_initmem-Usable (replicate 4096 7) 0xC0312345 1 639 7168 refl (omega arith) (omega arith)
      (omega arith) (omega arith) (omega arith)
