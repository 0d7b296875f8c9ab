-- ===== src/Arch/Mmu/Tests.antt =====
-- system/arch/i686/mmu.c: a page entered below the table of entry 772.
use rkernel.Base.{[], ◌∷◌, arith, refl, ◌==◌, if◌then◌else◌}
use rkernel.Arch.Window.{Memory}
use rkernel.Arch.Mmu.{pmap_enter, pmap_init}
use rkernel.Arch.Mmu.Init.{EntriesDone, state_of, pmap_init-EntriesDone}
use rkernel.Physmem.Alloc.{Bmaset}
use rkernel.Arch.Mmu.Walk.{Enters, pmap_enter-Enters}

abbrev one_table : Memory
one_table = record {
  page_table = λ i. 0;
  page_dir = λ i. if i == 772 then 0x5003 else 0;
  phys = λ p i. 0;
}

pmap_enter-Enters_example :
    Enters 0xC1003000 0x9000 6 one_table (pmap_enter 64 64 0xC1003000 0x9000 6 one_table)
pmap_enter-Enters_example = pmap_enter-Enters 64 0xC1003000 0x9000 6 one_table refl refl

-- Two pages to take for page tables.
abbrev two_pages : Bmaset
two_pages = record {
  block = 0 ∷ [];
  maps = record { range = record { begin = 0x5000; end = 0x7000 }; bitmap = 0; len = 2 } ∷ [];
}

pmap_init-EntriesDone_example :
    EntriesDone 252 772 one_table (state_of (pmap_init 0x40 0xC0100000 two_pages one_table))
pmap_init-EntriesDone_example =
    pmap_init-EntriesDone 0x40 0xC0100000 two_pages one_table
      (3072, (omega arith, (omega arith, refl)))
