-- ===== src/Vm/Init/Tests.antt =====
-- The static objects of the region mapper at the start, and once they are all in use.
use rkernel.Base.{[], ◌∷◌, ◌≡◌, some, refl, false, arith, All}
use rkernel.Arch.Mmu.{Pmap}
use rkernel.Physmem.Alloc.{Bmaset}
use rkernel.Vm.Region.{undefined}
use rkernel.Vm.Init.{Statics, rm_init}
use rkernel.Vm.Init.Ready.{started_vm}
use rkernel.Vm.Init.Runs.{IsInside, allocations, rm_init-allocations}

abbrev used_up : Statics
used_up = record {
  kernel_rm = record { childs = []; size = 0; refc = 0 };
  locked = false;
  rmoi = 4;
  rmos = λ i. record { offset = 0; size = 0; object = 0; kind = undefined; is_static = false };
  spaces = λ p. record { n_pages = 0; size = 0; pages = [] };
}

abbrev two_pages : Bmaset
two_pages = record {
  block = 1 ∷ [];
  maps = record { range = record { begin = 0x1000; end = 0x4000 }; bitmap = 0; len = 3 } ∷ [];
}

abbrev kernel_pmap : Pmap
kernel_pmap = record { slice = 0; pdir = 0; vab = 0xC1000000; vae = 0xFDFFFFFF }

rm_init-allocations_example :
    (s' : Statics) × (rm_init 0xC0200000 kernel_pmap used_up ≡ some s')
    × All IsInside (allocations (0x2000 ∷ 5 ∷ []) (started_vm s' two_pages))
rm_init-allocations_example =
    rm_init-allocations 0xC0200000 kernel_pmap used_up two_pages (0x2000 ∷ 5 ∷ []) refl refl
      (record { laid = omega arith })
