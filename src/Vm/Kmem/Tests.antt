-- ===== src/Vm/Kmem/Tests.antt =====
-- A kernel with four pages to fill and two free.
use rkernel.Base.{refl, some, [], ◌≡◌, ◌∷◌, true}
use rkernel.Vm.Region.{dataspace}
use rkernel.Physmem.Alloc.{Bmaset, vm_phys_alloc, alloc_in, bitmap_search, first_clear, busy, mark}
use rkernel.Vm.Kmem.{
  KernelVm, vm_kalloc_ll, grow_critical, grow_childs, grow_first, grow_from, grow_loop, first_empty,
  put_page,
}

abbrev pages : Bmaset
pages = record {
  block = 1 ∷ [];
  maps = record { range = record { begin = 0x1000; end = 0x4000 }; bitmap = 0; len = 3 } ∷ [];
}

abbrev kernel : KernelVm
kernel = record {
  rm = record {
    childs =
        record { offset = 0; size = 0x4000; object = 3; kind = dataspace; is_static = true } ∷ [];
    size = 0x8000;
    refc = 1;
  };
  space = λ _. record { n_pages = 4; size = 0x4000; pages = 0x9000 ∷ 0 ∷ 0 ∷ 0 ∷ [] };
  pd_begin = 0xc1000000;
  bmas = pages;
  entered = [];
}

-- Three pages are asked for, and the two free ones are handed out.
hands_out_two : (vm_kalloc_ll kernel 0x2001).0 ≡ some (0xc1001000, 0x2000)
unfolding vm_kalloc_ll grow_critical grow_childs grow_first grow_from grow_loop first_empty put_page
    vm_phys_alloc alloc_in bitmap_search first_clear busy mark
hands_out_two = refl
