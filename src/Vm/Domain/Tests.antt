-- ===== src/Vm/Domain/Tests.antt =====
-- system/vm/protection_domain.c: a kernel with four pages to fill and two free, and page tables for all of
-- its part.
use rkernel.Base.{◌+◌, ◌*◌, arith, refl, [], ◌∷◌, true}
use rkernel.Arch.Window.{Memory}
use rkernel.Physmem.Alloc.{vm_phys_alloc, alloc_in, bitmap_search, first_clear, busy, mark}
use rkernel.Vm.Region.{dataspace}
use rkernel.Vm.Kmem.{
  KernelVm, vm_kalloc_ll, grow_critical, grow_childs, grow_first, grow_from, grow_loop, first_empty,
  put_page,
}
use rkernel.Vm.Domain.{Domain}
use rkernel.Vm.Domain.Kmem.{AreReady, Backed, vm_kalloc_ll-Backed}

abbrev kernel : KernelVm
kernel = record {
  rm = record {
    childs =
        record { offset = 0; size = 0x4000; object = 3; kind = dataspace; is_static = true } ∷ [];
    size = 0x8000;
    refc = 1;
  };
  space = λ _. record { n_pages = 4; size = 0x4000; pages = 0x9000 ∷ 0 ∷ 0 ∷ 0 ∷ [] };
  pd_begin = 0xc1000000;
  bmas = record {
    block = 1 ∷ [];
    maps = record { range = record { begin = 0x1000; end = 0x4000 }; bitmap = 0; len = 3 } ∷ [];
  };
  entered = [];
}

abbrev tables : Memory
tables = record { page_table = λ i. 0; page_dir = λ i. i * 4096 + 3; phys = λ p i. 0 }

tables-AreReady : AreReady tables
tables-AreReady = record {
  present = λ i low high. omega arith;
  apart = λ i j a b c d e. omega arith;
}

abbrev domain : Domain
domain = record { pd_begin = 0xc1000000; pd_end = 0xfdffffff; pd_pmap = 64; pd_refc = 0 }

vm_kalloc_ll-Backed_example :
    Backed 64 domain tables kernel (vm_kalloc_ll kernel 0x2001).1 0xc1001000 0x1234
unfolding vm_kalloc_ll grow_critical grow_childs grow_first grow_from grow_loop first_empty put_page
    vm_phys_alloc alloc_in bitmap_search first_clear busy mark
vm_kalloc_ll-Backed_example =
    vm_kalloc_ll-Backed 64 domain refl tables tables-AreReady
      (3072, (omega arith, (omega arith, refl))) kernel (vm_kalloc_ll kernel 0x2001).1 0x2001
      0xc1001000 0x2000 0x1234 (record { laid = omega arith })
      (
        record { offset = 0; size = 0x4000; object = 3; kind = dataspace; is_static = true },
        refl,
        (refl, (refl, omega arith)),
      )
      refl refl (omega arith)
